-- ===== src/WebSdk/Storage.antt =====
-- sdks/kavach-web/src/storage.ts: the interface of a token store, and the two stores that meet it.
use kavachid.Base.{
  ◌≡◌, refl, true, false, Option, none, some, List, [], ◌∷◌, String, ◌==◌, eq_iff, present, truthy,
  if◌then◌else◌, arith,
}

-- An entry of a `Map`, of `localStorage`, or of `Headers`.
pub record Entry : Type 0 where
  pub key : String
  pub value : String

abbrev pub entry : String → String → Entry
entry key value = record { key = key; value = value }

abbrev pub Entries : Type 0
Entries = List Entry

-- `get`, `set` and `delete` of a `Map`, which are also what `localStorage` does
unfoldable pub find_entry : Entries → String → Option String
find_entry [] key = none
find_entry (e ∷ rest) key = if key == e.key then some e.value else find_entry rest key

unfoldable pub put_entry : Entry → Entries → Entries
put_entry new [] = new ∷ []
put_entry new (e ∷ rest) = if new.key == e.key then new ∷ rest else e ∷ put_entry new rest

unfoldable pub drop_entry : String → Entries → Entries
drop_entry key [] = []
drop_entry key (e ∷ rest) =
    let others = drop_entry key rest in elim (key == e.key) [ true ↦ others | false ↦ e ∷ others ]

pub find_entry-put_entry :
    (new : Entry) (entries : Entries) (key : String)
    → find_entry (put_entry new entries) key
      ≡ (if key == new.key then some new.value else find_entry entries key)
unfolding find_entry put_entry
find_entry-put_entry new [] key = refl
find_entry-put_entry new (e ∷ rest) key = ground (
  arith,
  find_entry-put_entry new rest key,
  eq_iff key new.key,
  eq_iff new.key e.key,
  eq_iff key e.key,
)

pub find_entry-drop_entry :
    (gone : String) (entries : Entries) (key : String)
    → find_entry (drop_entry gone entries) key
      ≡ (if key == gone then none else find_entry entries key)
unfolding find_entry drop_entry
find_entry-drop_entry gone [] key = ground arith
find_entry-drop_entry gone (e ∷ rest) key = ground (
  arith,
  find_entry-drop_entry gone rest key,
  eq_iff key gone,
  eq_iff gone e.key,
  eq_iff key e.key,
)

-- `v || null`
abbrev pub or_null : Option String → Option String
or_null o = if truthy o then o else none

-- `StorageProvider`: the three calls by the state of the store, and what a client relies on: a text
-- that is not empty is read again after it was written, a removed key reads as absent, and the other
-- keys stay.
pub record StorageProvider : Type 1 where
  pub Store : Type 0
  pub get_item : String → Store → Option String
  pub set_item : String → String → Store → Store
  pub remove_item : String → Store → Store
  pub get_item-set_item :
      (k j v : String) (s : Store)
      → present v ≡ true
      → get_item j (set_item k v s) ≡ (if j == k then some v else get_item j s)
  pub get_item-remove_item :
      (k j : String) (s : Store)
      → get_item j (remove_item k s) ≡ (if j == k then none else get_item j s)

-- `MemoryStorageProvider`: `getItem` reads an empty text as absent.
unfoldable pub get_memory : String → Entries → Option String
get_memory k m = or_null (find_entry m k)

pub get_memory-put_entry :
    (k j v : String) (m : Entries)
    → present v ≡ true
    → get_memory j (put_entry (entry k v) m) ≡ (if j == k then some v else get_memory j m)
unfolding get_memory
get_memory-put_entry k j v m h = rw (find_entry-put_entry (entry k v) m j) (ground arith)

pub get_memory-drop_entry :
    (k j : String) (m : Entries)
    → get_memory j (drop_entry k m) ≡ (if j == k then none else get_memory j m)
unfolding get_memory
get_memory-drop_entry k j m = rw (find_entry-drop_entry k m j) (ground arith)

abbrev pub memory_storage : StorageProvider
memory_storage = record {
  Store = Entries;
  get_item = get_memory;
  set_item = λ k v. put_entry (entry k v);
  remove_item = drop_entry;
  get_item-set_item = get_memory-put_entry;
  get_item-remove_item = get_memory-drop_entry;
}

-- `LocalStorageProvider`, by the entries of `window.localStorage`, which is not there everywhere
abbrev pub get_local : String → Option Entries → Option String
get_local k none = none
get_local k (some m) = find_entry m k

abbrev pub set_local : String → String → Option Entries → Option Entries
set_local k v none = none
set_local k v (some m) = some (put_entry (entry k v) m)

abbrev pub remove_local : String → Option Entries → Option Entries
remove_local k none = none
remove_local k (some m) = some (drop_entry k m)

-- the provider where the window has a store, as the constructor of the client finds it
abbrev pub local_storage : StorageProvider
local_storage = record {
  Store = Entries;
  get_item = λ k m. get_local k (some m);
  set_item = λ k v. put_entry (entry k v);
  remove_item = drop_entry;
  get_item-set_item = λ k j v m h. find_entry-put_entry (entry k v) m j;
  get_item-remove_item = λ k j m. find_entry-drop_entry k m j;
}
