-- ===== src/Cache/Read.antt =====
-- cache_cat/src/raft/types/core/mocha/read_command.rs: commands that only read, of one key or of
-- several, with the read clock of the caller if it has one.
use cache_cat.Prelude.{ℕ, Option, none, some, List, [], ◌∷◌, Bytes, bytes_eq}
use cache_cat.Value.{Value, MyValue}
use cache_cat.Mocha.{
  Mocha, EntrySnapshot, MochaOperation, insert, remove, abort, get_with_read_clock,
}
use cache_cat.Cache.{Store, MyCache, get_cache, with_db}

pub record ReadCommand : Type 0 where
  pub key : Bytes
  pub execute : Option (EntrySnapshot MyValue) → Value

pub record MultiReadCommand : Type 0 where
  pub keys : List Bytes
  pub execute : List (Option (EntrySnapshot MyValue)) → Value

module _ (h : Store) where
  unfoldable pub execute_read : MyCache h → ReadCommand → ℕ → Option ℕ → Value × MyCache h
  execute_read cache cmd db_number read_clock = elim (get_cache h cache db_number) [
    | none ↦ (Value.error "Key not found", cache)
    | some m ↦
        let (option, m') = get_with_read_clock h m cmd.key read_clock in
        (cmd.execute option, with_db h cache db_number m')
  ]

  -- The loop over the keys.
  unfoldable pub read_all :
      Mocha h → List Bytes → Option ℕ → List (Option (EntrySnapshot MyValue)) × Mocha h
  read_all m [] read_clock = ([], m)
  read_all m (key ∷ keys) read_clock =
      let (option, m') = get_with_read_clock h m key read_clock in
      let (options, m'') = read_all m' keys read_clock in (option ∷ options, m'')

  unfoldable pub execute_multi_read :
      MyCache h → MultiReadCommand → ℕ → Option ℕ → Value × MyCache h
  unfolding read_all
  execute_multi_read cache cmd db_number read_clock = elim (get_cache h cache db_number) [
    | none ↦ (Value.error "Key not found", cache)
    | some m ↦
        let (values, m') = read_all m cmd.keys read_clock in
        (cmd.execute values, with_db h cache db_number m')
  ]

-- The entry that a command leaves; it stands for the key as long as the entry has not expired.
abbrev pub left_by : MochaOperation MyValue × Value → EntrySnapshot MyValue → EntrySnapshot MyValue
left_by (insert v policy, res) entry = record entry { value = v }
left_by (remove, res) entry = entry
left_by (abort, res) entry = entry
