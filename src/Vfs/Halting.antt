-- ===== src/Vfs/Halting.antt =====
-- The parts of kopen that end with the kernel's own drivers.
use new_wiv_os.Base.{
  ℕ, zero, suc, ◌≡◌, ◌<◌, refl, sym, arith, true, false, Bool, if◌then◌else◌, ◌==◌, not, ◌||◌,
  Option-cases, inl, inr, bit_and, Option, none, some, List, [], ◌∷◌, length,
}
use mathlib.Core.Path.{subst}
use new_wiv_os.Base.Run.{Run, ok, fault, hang, Cmd, and_then, fault_cmd}
use new_wiv_os.Strings.Text.{strsep, strsep_loop}
use new_wiv_os.Strings.Bounds.{room, Small, strsep_loop-Small}
use new_wiv_os.Vfs.Nodes.{
  Functions, Node, DeviceNode, DeviceEntry, Store, o_creat, vfs_directory, has_flag, through,
  any_node, set_node, allocate, vfs_open, vfs_finddir, vfs_create,
}
use new_wiv_os.Vfs.Devices.{devfs_finddir, devfs_finddir_fn, find_device, node_for, kernel_drivers}
use new_wiv_os.Vfs.Open.{Walk, missing, reached, walk, open_node, finish_open}

-- A call of finddir that leaves the path as it is, or faults.
abbrev Keeps : Option (List ℕ) → Run Store (ℕ × Option (List ℕ)) → Type 0
Keeps path (ok r s) = r.1 ≡ path
Keeps path fault = Unit {0}
Keeps path hang = ⊥

Keeps-if :
    (path : Option (List ℕ)) (b : Bool) (x y : Run Store (ℕ × Option (List ℕ)))
    → Keeps path x
    → Keeps path y
    → Keeps path (if b then x else y)
Keeps-if path true x y h g = h
Keeps-if path false x y h g = g

Keeps-choice :
    (path : Option (List ℕ)) (b : Bool) (f g : Cmd Store (ℕ × Option (List ℕ))) (s : Store)
    → Keeps path (f s)
    → Keeps path (g s)
    → Keeps path ((if b then f else g) s)
Keeps-choice path true f g s h k = h
Keeps-choice path false f g s h k = k

devfs_finddir-Keeps :
    (node : ℕ) (name : List ℕ) (path : Option (List ℕ)) (s : Store)
    → Keeps path (devfs_finddir node name path s)
unfolding devfs_finddir allocate
devfs_finddir-Keeps node name path s = listed (find_device name s.devices)
  where
    supplied :
        (d : DeviceNode) (more : List ℕ)
        → Keeps path (
            and_then
              (elim more [ [] ↦ ok 0 s | a ∷ rest ↦ ok a (record s { fresh = rest }) ])
              (λ a t. if a == 0 then fault else ok (a, path) (set_node a (node_for d) t)))
    supplied d [] = tt
    supplied d (a ∷ rest) = Keeps-if path (a == 0) fault _ tt refl

    found :
        (o : Option DeviceNode)
        → Keeps path (elim o [
          | none ↦ fault
          | some d ↦
              and_then
                (allocate s)
                (λ a t. if a == 0 then fault else ok (a, path) (set_node a (node_for d) t))
        ])
    found none = tt
    found (some d) = supplied d s.fresh

    listed :
        (o : Option DeviceEntry)
        → Keeps path (elim o [
          | none ↦ ok (0, path) s
          | some entry ↦ elim (s.device_nodes entry.node) [
            | none ↦ fault
            | some d ↦
                and_then
                  (allocate s)
                  (λ a t. if a == 0 then fault else ok (a, path) (set_node a (node_for d) t))
          ]
        ])
    listed none = refl
    listed (some entry) = found (s.device_nodes entry.node)

finddir-Keeps :
    (node : ℕ) (name : List ℕ) (path : Option (List ℕ)) (s : Store)
    → Keeps path (vfs_finddir kernel_drivers node name path s)
unfolding vfs_finddir through kernel_drivers
finddir-Keeps node name path s = Keeps-if path (node == 0) _ _ refl (present (s.nodes node))
  where
    present :
        (o : Option Node)
        → Keeps path (elim o [
          | none ↦ fault
          | some n ↦
              if not (has_flag n vfs_directory) || n.functions.finddir_fn == 0
              then ok (0, path) s
              else kernel_drivers.finddir_at n.functions.finddir_fn node name path s
        ])
    present none = tt
    present (some n) =
        Keeps-if path (not (has_flag n vfs_directory) || n.functions.finddir_fn == 0) _ _ refl (
          Keeps-choice path (n.functions.finddir_fn == devfs_finddir_fn)
            (devfs_finddir node name path) fault_cmd s (devfs_finddir-Keeps node name path s) tt)

abbrev pub Halts : {A : Type 0} → Run Store A → Type 0
Halts (ok a s) = Unit {0}
Halts fault = Unit {0}
Halts hang = ⊥

pub Halts-if :
    {A : Type 0} (b : Bool) (x y : Run Store A) → Halts x → Halts y → Halts (if b then x else y)
Halts-if true x y h g = h
Halts-if false x y h g = g

pub Halts-and_then :
    {A B : Type 0} (m : Run Store A) (k : A → Cmd Store B)
    → Halts m
    → ((a : A) (s : Store) → Halts (k a s))
    → Halts (and_then m k)
Halts-and_then (ok a s) k h next = next a s
Halts-and_then fault k h next = tt
Halts-and_then hang k h next = h

Keeps-and_then :
    {B : Type 0} (path : Option (List ℕ)) (m : Run Store (ℕ × Option (List ℕ)))
    (k : ℕ × Option (List ℕ) → Cmd Store B)
    → Keeps path m
    → ((found : ℕ) (s : Store) → Halts (k (found, path) s))
    → Halts (and_then m k)
Keeps-and_then path (ok r s) k h next = subst (λ p. Halts (k (r.0, p) s)) (sym h) (next r.0 s)
Keeps-and_then path fault k h next = tt
Keeps-and_then path hang k h next = h

-- A call through a node whose function only faults
through-Halts :
    {A : Type 0} (refusal : A) (serves : Node → Bool) (slot : Functions → ℕ)
    (call : ℕ → Cmd Store A) (node : ℕ) (s : Store)
    → ((f : ℕ) (t : Store) → Halts (call f t))
    → Halts (through refusal serves slot call node s)
unfolding through
through-Halts refusal serves slot call node s h =
    Halts-if (node == 0) _ _ tt (present (s.nodes node))
  where
    present :
        (o : Option Node)
        → Halts (elim o [
          | none ↦ fault
          | some n ↦
              if not (serves n) || slot n.functions == 0
              then ok refusal s
              else call (slot n.functions) s
        ])
    present none = tt
    present (some n) =
        Halts-if (not (serves n) || slot n.functions == 0) _ _ tt (h (slot n.functions) s)

create-Halts :
    (node : ℕ) (name : List ℕ) (flags : ℕ) (s : Store)
    → Halts (vfs_create kernel_drivers node name flags s)
unfolding vfs_create kernel_drivers
create-Halts node name flags s =
    through-Halts 0 (λ n. has_flag n vfs_directory) Functions.create_fn (λ f. fault_cmd) node s
      (λ f t. tt)

vfs_open-Halts : (node flags : ℕ) (s : Store) → Halts (vfs_open kernel_drivers node flags s)
unfolding vfs_open kernel_drivers
vfs_open-Halts node flags s =
    through-Halts tt any_node Functions.open_fn (λ f. fault_cmd) node s (λ f t. tt)

pub walk-Halts :
    (fuel flags start next : ℕ) (path : Option (List ℕ)) (s : Store)
    → room path < fuel
    → Halts (walk fuel kernel_drivers flags start next path s)
unfolding walk strsep
walk-Halts zero flags start next path s lt = absurd (omega arith)
walk-Halts (suc fuel) flags start next none s lt = tt
walk-Halts (suc fuel) flags start next (some p) s lt =
    elim (Option-cases (strsep_loop p (b'/' ∷ 0 ∷ []))) [
      | inl e ↦ rw (walk, strsep, e) tt
      | inr (r, e) ↦
          let small : Small (suc (length p)) (some r) =
            rw e at (strsep_loop-Small p (b'/' ∷ 0 ∷ [])) in
          rw (walk, strsep, e)
            (Keeps-and_then r.1 (vfs_finddir kernel_drivers start r.0 r.1 s) _
              (finddir-Keeps start r.0 r.1 s)
              (λ found t.
                Halts-if (found == 0) _ _
                  (Halts-if (bit_and flags o_creat == 0) _ _ tt (
                    Halts-and_then (vfs_create kernel_drivers start r.0 flags t) _
                      (create-Halts start r.0 flags t) (λ a u. tt)))
                  (walk-Halts fuel flags found found r.1 t (omega (arith, small, lt)))))
    ]

pub finish-Halts : (flags : ℕ) (w : Walk) (s : Store) → Halts (finish_open kernel_drivers flags w s)
unfolding finish_open open_node
finish-Halts flags missing s = tt
finish-Halts flags (reached start next) s =
    let node = if next == 0 then start else next in
    Halts-and_then (vfs_open kernel_drivers node flags s) _ (vfs_open-Halts node flags s)
      (λ unit t. tt)
