-- ===== src/Tests/Tables.antt =====
-- Runs of the hash map on a new map of four chains.
use new_wiv_os.Base.{◌≡◌, arith, [], ◌∷◌, none, some}
use new_wiv_os.Base.Run.{ok, Returns}
use new_wiv_os.Hashmap.{Key, Hashmap, hashmap_create, hashmap_set, hashmap_get, hashmap_remove}
use new_wiv_os.Hashmap.Chain.{or_null}
use new_wiv_os.Hashmap.Table.{Sets, view, create-IsValid, get-view, set-view, remove-view}

abbrev name : Key
name = b'c' ∷ b'p' ∷ b'u' ∷ []

abbrev four : Hashmap
four = hashmap_create 4

get-view_example : hashmap_get name four ≡ ok (or_null (view four name)) four
get-view_example = get-view four (create-IsValid 4 (omega arith)).0 name

set-view_example : Returns (hashmap_set name 7 four) (Sets four name (some 7))
set-view_example = set-view four (create-IsValid 4 (omega arith)).0 name 7

remove-view_example : Returns (hashmap_remove name four) (Sets four name none)
remove-view_example = remove-view four (create-IsValid 4 (omega arith)).0 name
