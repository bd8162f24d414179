-- ===== src/Tests/Tables4.antt =====
-- A run of the x86-64 page tables: a root table at 0x1000 without entries.
use new_wiv_os.Base.{false, [], ◌∷◌}
use new_wiv_os.Vmm.{Tables}

abbrev blank : Tables
blank = record {
  words = λ a. 0;
  offset = 0;
  root = 0x1000;
  max_level = 4;
  pages = 0x5000 ∷ [];
  locked = false;
}
