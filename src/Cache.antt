-- ===== src/Cache.antt =====
-- include/Cache.hpp and src/Cache.cpp: `Cache`, a store of serialized values in files, with their expiration. The files are
-- part of the state; archives of the serialization library and the clock are arguments. A call holds its mutex from
-- its first line on; that no other thread runs meanwhile is why it is one step here.
pub mod Memo
use cipher_trader.Prelude.{
  zero, Bool, true, false, not, Option, none, some, List, [], ◌∷◌, ◌++◌, if◌then◌else◌, Text, codes,
  text_eq, Result, ok, err, ◌==◌, null_pointer, runtime_error, out_of_range, M, ◌&&◌,
}
use cipher_trader.Prelude.Int.{ℤ, pos, ◌+ℤ◌, ◌*ℤ◌, ltb_ℤ}
use cipher_trader.Prelude.Dict.{Dict, insert, lookup}

pub record Item : Type 0 where
  pub expire_seconds : ℤ
  pub expire_at : Option ℤ
  pub path : Text

-- `db` and `has_mutex` say whether the shared pointers point to something.
pub record Cache : Type 0 where
  pub path : Text
  pub driver : Text
  pub db : Option (Dict Item)
  pub has_mutex : Bool
  pub files : Dict Text

-- `erase(it)`, and the removal of a file
unfoldable pub erase {ℓ} : {V : Type ℓ} → Text → Dict V → Dict V
erase k [] = []
erase k ((j, v) ∷ m) = if text_eq j k then erase k m else (j, v) ∷ erase k m

abbrev pub is_empty : Text → Bool
is_empty [] = true
is_empty (c ∷ t) = false

abbrev pub data_path : Text → Text → Text
data_path path key = path ++ (key ++ codes ".cache")

abbrev pub db_path : Text → Text
db_path path = path ++ codes "cache_database.dat"

-- A second in ticks of the clock, the archive of the database, and what an attempt to write a file leaves
-- of the files
module _ (second : ℤ) (save_db : Dict Item → Text)
    (write : Text → Text → Dict Text → Dict Text) where
  -- An exception of the writing is swallowed.
  unfoldable pub update_db : Dict Item → Cache → Cache
  update_db m c = record c { db = some m; files = write (db_path c.path) (save_db m) c.files }

  abbrev pub expiry : ℤ → ℤ → Option ℤ
  expiry now (pos zero) = none
  expiry now seconds = some (now +ℤ seconds *ℤ second)

  abbrev pub expired : ℤ → Option ℤ → Bool
  expired now none = false
  expired now (some t) = ltb_ℤ t now

  module _ {T : Type 0} (save : T → Text) (load : Text → Option T) where
    abbrev pub store_item : ℤ → Text → T → ℤ → Dict Item → Cache → Result (Unit {0}) × Cache
    store_item now key value seconds m c =
        let place = data_path c.path key in
        let item : Item = record {
          expire_seconds = seconds;
          expire_at = expiry now seconds;
          path = place;
        } in
        elim (lookup key m) [
          | none ↦ (err out_of_range, c)
          | some old ↦
              let c' = update_db (insert key item m) c in
              (ok tt, record c' { files = write place (save value) c'.files })
        ]

    unfoldable pub set_value : ℤ → Text → T → ℤ → M Cache (Unit {0})
    set_value now key value seconds c =
        if not c.has_mutex
        then (err null_pointer, c)
        else if is_empty c.driver
        then (err runtime_error, c)
        else elim c.db [
          | none ↦ (err null_pointer, c)
          | some m ↦ store_item now key value seconds m c
        ]

    abbrev pub drop_item : Text → Dict Item → Cache → Result (Option T) × Cache
    drop_item key m c = (ok none, update_db (erase key m) c)

    abbrev pub remove_file : Text → Cache → Cache
    remove_file place c = record c { files = erase place c.files }

    -- The expiration of an item that has one starts anew.
    abbrev pub renew : ℤ → Text → Item → Dict Item → Cache → Dict Item × Cache
    renew now key item m c = elim item.expire_at [
      | none ↦ (m, c)
      | some t ↦
          let at = now +ℤ item.expire_seconds *ℤ second in
          let m' = insert key (record item { expire_at = some at }) m in (m', update_db m' c)
    ]

    abbrev pub read_file : Text → Text → Dict Item × Cache → Result (Option T) × Cache
    read_file key place (m, c) = elim (lookup place c.files) [
      | none ↦ drop_item key m (remove_file place c)
      | some bytes ↦ elim (load bytes) [
        | none ↦ drop_item key m (remove_file place c)
        | some value ↦ (ok (some value), c)
      ]
    ]

    -- The clock is read twice, at `now` and at `later`.
    abbrev pub find_item : ℤ → ℤ → Text → Dict Item → Cache → Result (Option T) × Cache
    find_item now later key m c = elim (lookup key m) [
      | none ↦ (ok none, c)
      | some item ↦
          if expired now item.expire_at
          then drop_item key m (remove_file item.path c)
          else elim (lookup item.path c.files) [
            | none ↦ drop_item key m c
            | some bytes ↦ read_file key item.path (renew later key item m c)
          ]
    ]

    unfoldable pub get_value : ℤ → ℤ → Text → M Cache (Option T)
    get_value now later key c =
        if not c.has_mutex
        then (err null_pointer, c)
        else if is_empty c.driver
        then (err runtime_error, c)
        else elim c.db [ none ↦ (err null_pointer, c) | some m ↦ find_item now later key m c ]

  -- Every item is removed with its file.
  unfoldable pub remove_files : Dict Item → Dict Text → Dict Text
  remove_files [] files = files
  remove_files ((key, item) ∷ m) files = remove_files m (erase item.path files)

  unfoldable pub flush_cache : M Cache (Unit {0})
  flush_cache c =
      if not c.has_mutex
      then (err null_pointer, c)
      else if is_empty c.driver
      then (ok tt, c)
      else elim c.db [
        | none ↦ (err null_pointer, c)
        | some m ↦ (ok tt, update_db [] (record c { files = remove_files m c.files }))
      ]

-- The constructor without a database file, where the pointers stay unset.
unfoldable pub construct_cache : Text → Text → Dict Text → Cache
construct_cache path driver files = record {
  path = path;
  driver = driver;
  db = none;
  has_mutex = false;
  files = files;
}
