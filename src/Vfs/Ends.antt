-- ===== src/Vfs/Ends.antt =====
-- kopen does not run for ever with the kernel's own drivers.
use new_wiv_os.Base.{
  ℕ, ◌+◌, ◌<◌, arith, if◌then◌else◌, ◌==◌, Option, none, some, List, length, drop, ◌-◌,
}
use new_wiv_os.Base.Run.{Run, ok, fault, and_then}
use new_wiv_os.Strings.Search.{strdup, strstr}
use new_wiv_os.Strings.Bounds.{Within, strstr-Within, length-drop, Within-mono, Fits, strdup-Fits}
use new_wiv_os.Vfs.{vfs_get_mountpoint}
use new_wiv_os.Vfs.Nodes.{Store}
use new_wiv_os.Vfs.Devices.{kernel_drivers}
use new_wiv_os.Vfs.Open.{walk, new_start, finish_open, kopen}
use new_wiv_os.Vfs.Halting.{Halts, Halts-if, Halts-and_then, walk-Halts, finish-Halts}

new_start-Within :
    (save : List ℕ) (filename : Option (List ℕ)) → Within (length save) (new_start save filename)
unfolding new_start
new_start-Within save none = omega arith
new_start-Within save (some filename) =
    let from = drop (length save - length filename) save in
    Within-mono (length from) (length save) (strstr from filename)
      (length-drop (length save - length filename) save) (strstr-Within from filename)

opens-Halts :
    (fuel flags start : ℕ) (path : Option (Option (List ℕ))) (n : ℕ) (s : Store)
    → Within n path
    → n + 1 < fuel
    → Halts (elim path as (λ o. Run Store ℕ) [
      | none ↦ fault
      | some p ↦
          and_then (walk fuel kernel_drivers flags start 0 p s) (finish_open kernel_drivers flags)
    ])
opens-Halts fuel flags start none n s h lt = tt
opens-Halts fuel flags start (some p) n s h lt =
    Halts-and_then (walk fuel kernel_drivers flags start 0 p s) (finish_open kernel_drivers flags)
      (walk-Halts fuel flags start 0 p s (omega (arith, h, lt))) (λ w t. finish-Halts flags w t)

mounted-Halts :
    (fuel flags : ℕ) (save : List ℕ) (found : Option (ℕ × Option (List ℕ))) (s : Store)
    → length save + 1 < fuel
    → Halts (elim found as (λ o. Run Store ℕ) [
      | none ↦ fault
      | some (start, filename) ↦
          if start == 0 then ok 0 s else elim (new_start save filename) as (λ o. Run Store ℕ) [
            | none ↦ fault
            | some path ↦
                and_then
                  (walk fuel kernel_drivers flags start 0 path s)
                  (finish_open kernel_drivers flags)
          ]
    ])
mounted-Halts fuel flags save none s lt = tt
mounted-Halts fuel flags save (some (start, filename)) s lt = Halts-if (start == 0) _ _ tt (
    opens-Halts fuel flags start (new_start save filename) (length save) s
      (new_start-Within save filename) lt)

copied-Halts :
    (fuel flags n : ℕ) (save : Option (List ℕ)) (s : Store)
    → Fits n save
    → n + 1 < fuel
    → Halts (elim save as (λ o. Run Store ℕ) [
      | none ↦ fault
      | some text ↦ elim (vfs_get_mountpoint s.tree (some text)) as (λ o. Run Store ℕ) [
        | none ↦ fault
        | some (start, filename) ↦
            if start == 0 then ok 0 s else elim (new_start text filename) as (λ o. Run Store ℕ) [
              | none ↦ fault
              | some path ↦
                  and_then
                    (walk fuel kernel_drivers flags start 0 path s)
                    (finish_open kernel_drivers flags)
            ]
      ]
    ])
copied-Halts fuel flags n none s h lt = tt
copied-Halts fuel flags n (some text) s h lt =
    mounted-Halts fuel flags text (vfs_get_mountpoint s.tree (some text)) s (omega (arith, h, lt))

-- With the kernel's own drivers and no lock held by another, kopen ends, in a result or a fault,
-- whatever the path, the flags and the state of the file system: for its loop, two rounds more than
-- the path's object has bytes are enough; the search of the mount points is a
-- recursion on their tree.
pub kopen-Halts :
    (fuel : ℕ) (name : List ℕ) (flags : ℕ) (s : Store)
    → length name + 1 < fuel
    → Halts (kopen fuel kernel_drivers name flags s)
unfolding kopen
kopen-Halts fuel name flags s lt =
    copied-Halts fuel flags (length name) (strdup name) s (strdup-Fits name) lt
