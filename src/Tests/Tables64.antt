-- ===== src/Tests/Tables64.antt =====
-- Runs of the page table walk: a root table at 0x1000 whose entry 0 is the table at 0x2000, whose
-- entry 0 is a huge page.
use new_wiv_os.Base.{◌≡◌, refl, arith, ◌==◌, false, if◌then◌else◌, [], ◌∷◌}
use new_wiv_os.Base.Run.{ok, Returns}
use new_wiv_os.Vmm.{Tables, vmm_get_or_alloc, vmm_get_or_null}
use new_wiv_os.Vmm.Entries.{get_or_alloc-get_or_null}

abbrev tables : Tables
tables = record {
  words = λ a. if a == 0x1000 then 0x801 else if a == 0x2000 then 0xF else 0;
  offset = 0;
  root = 0x1000;
  max_level = 3;
  pages = 0x5000 ∷ [];
  locked = false;
}

get_or_alloc-get_or_null_example :
    Returns (vmm_get_or_alloc 0x1000 7 1 tables) (λ a t'. vmm_get_or_null 0x1000 7 t' ≡ ok a t')
get_or_alloc-get_or_null_example =
    get_or_alloc-get_or_null tables 0x1000 7 1 0x5000 [] refl (omega arith) (omega arith)
      (omega arith)
