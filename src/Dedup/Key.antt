-- ===== src/Dedup/Key.antt =====
-- src/delivery/deduplication.rs: the key of an event, with its derived equality.
use meilibridge.Prelude.{
  ℕ, String, ◌≡◌, ◌↔◌, Bool, true, ◌&&◌, Option, none, some, arith, Equality, ◌==◌, nat_eq,
  string_eq, option_eq,
}

pub record DeduplicationKey : Type 0 where
  pub lsn : String
  pub xid : Option ℕ
  pub table : String
  pub primary_key : Option String

unfoldable pub new : String → Option ℕ → String → DeduplicationKey
new lsn xid table = record { lsn = lsn; xid = xid; table = table; primary_key = none }

unfoldable pub with_primary_key : DeduplicationKey → String → DeduplicationKey
with_primary_key key pk = record key { primary_key = some pk }

unfoldable pub key_eqb : DeduplicationKey → DeduplicationKey → Bool
key_eqb a b =
    a.lsn == b.lsn && a.xid == b.xid && a.table == b.table && a.primary_key == b.primary_key

pub key_eqb_iff : (a b : DeduplicationKey) → (key_eqb a b ≡ true) ↔ (a ≡ b)
unfolding key_eqb
key_eqb_iff a b = ground (
  arith,
  string_eq.eqb_iff a.lsn b.lsn,
  (option_eq {A = ℕ}).eqb_iff a.xid b.xid,
  string_eq.eqb_iff a.table b.table,
  (option_eq {A = String}).eqb_iff a.primary_key b.primary_key,
)

instance abbrev pub key_eq : Equality DeduplicationKey
key_eq = record { eqb = key_eqb; eqb_iff = key_eqb_iff }
