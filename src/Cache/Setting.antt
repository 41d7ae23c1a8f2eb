-- ===== src/Cache/Setting.antt =====
-- SET with its options, in the plain mode, as a client sees it.
use cache_cat.Prelude.{ℕ, Bool, true, not, Option, none, some, bytes_eq, if◌then◌else◌}
use cache_cat.Value.{Value, MyValue, ok}
use cache_cat.Mocha.{Mocha, EntrySnapshot, insert}
use cache_cat.Mocha.View.{view}
use cache_cat.Cache.{Store}
use cache_cat.Cache.Strings.{policy_of, object_of}
use cache_cat.Cache.Redis.{version_after}
use cache_cat.Cache.SetForms.{
  SetParams, SetMode, nx, xx, ExistingKey, key_exists, old_value, allowed,
}
use cache_cat.Cache.Seen.{changed}

-- NX is for a key that is not seen, XX for one that is.
abbrev pub may_write : Option SetMode → Bool → Bool
may_write none there = true
may_write (some nx) there = not there
may_write (some xx) there = there

module _ (h : Store) where
  -- How the key is seen once it has been set.
  abbrev pub set_to : Mocha h → SetParams → ℕ → Option (EntrySnapshot MyValue)
  set_to m params at = changed h m params.key (
      insert
        (record { version = version_after (view h m params.key); data_ = object_of params.value })
        (policy_of at))

  -- The reply and whether the call writes, from what is known of the key.
  abbrev pub writes : SetParams → ExistingKey → Bool
  writes params known = allowed params.mode (key_exists known)

  abbrev pub replied : SetParams → ExistingKey → Value
  replied params known =
      if params.get
      then old_value known
      else if writes params known
      then ok
      else Value.bulk_string none
