-- ===== src/Store/State.antt =====
-- The tables of the in-memory store, and the shape of its methods.
use qurator.Common.{
  ℕ, ◌≡◌, ◌↔◌, ◌⊎◌, inl, inr, refl, Bool, true, false, not, ◌&&◌, Option, none, some, List, [],
  Text, Dict, lookup, Result, Eq, ◌==◌, text_eq, nat_eq, pair_eq, text_beq_iff, arith,
}
use qurator.Domain.{Time, User, ApiToken, Code, ScanEvent, Dimension, dim_eq, dim_beq_iff, is_some}

pub data StoreError : Type 0 where
  not_found conflict alias_taken client_ref_taken invalid cancelled : StoreError

pub record Reservation : Type 0 where
  pub code_id : Text
  pub reserved_at : Time
  pub released_at : Option Time

-- (*reservation).taken
abbrev pub taken : Reservation → Bool
taken r = not (is_some r.released_at)

pub record ScanRow : Type 0 where
  pub seq : ℕ
  pub ev : ScanEvent

pub record RollupKey : Type 0 where
  pub code_id : Text
  pub hour : Time
  pub dim : Dimension
  pub value : Text

abbrev pub rollup_key_beq : RollupKey → RollupKey → Bool
rollup_key_beq a b =
    a.code_id == b.code_id && a.hour == b.hour && a.dim == b.dim && a.value == b.value

pub rollup_key_beq_iff : (a b : RollupKey) → (rollup_key_beq a b ≡ true) ↔ (a ≡ b)
rollup_key_beq_iff a b =
    ground (
      arith,
      text_beq_iff a.code_id b.code_id,
      dim_beq_iff a.dim b.dim,
      text_beq_iff a.value b.value,
    )

instance abbrev pub rollup_key_eq : Eq RollupKey
rollup_key_eq = record { beq = rollup_key_beq; beq_iff = rollup_key_beq_iff }

-- refKey: the user and the client_ref
abbrev pub RefKey : Type 0
RefKey = Text × Text

instance abbrev pub ref_key_eq : Eq RefKey
ref_key_eq = pair_eq text_eq text_eq

pub record MemStore : Type 0 where
  pub users : Dict Text User
  pub emails : Dict Text Text
  pub tokens : Dict Text ApiToken
  pub codes : Dict Text Code
  pub by_code : Dict Text Text
  pub by_ref : Dict RefKey Text
  pub reservations : Dict Text Reservation
  pub events : List ScanRow
  pub next_seq : ℕ
  pub rollups : Dict RollupKey ℕ

-- NewMemStore
unfoldable pub new_mem_store : MemStore
new_mem_store = record {
  users = [];
  emails = [];
  tokens = [];
  codes = [];
  by_code = [];
  by_ref = [];
  reservations = [];
  events = [];
  next_seq = 0;
  rollups = [];
}

-- A context that has not ended, or one whose Err is not nil: each method begins with
-- `if err := ctx.Err(); err != nil { return err }`.
pub data Ctx : Type 0 where
  live done : Ctx

pub Ctx-cases : (c : Ctx) → (c ≡ live) ⊎ (c ≡ done)
Ctx-cases live = inl refl
Ctx-cases done = inr refl

abbrev pub Op : Type 0 → Type 0
Op A = MemStore → Result StoreError A × MemStore

-- `_, ok := m[k]`
unfoldable pub has {ℓ} : {K : Type 0} {V : Type ℓ} ⦃e : Eq K⦄ → K → Dict K V → Bool
has k m = is_some (lookup k m)

-- is the short code held by a reservation that was not released?
unfoldable pub held : Text → MemStore → Bool
held key m = elim (lookup key m.reservations) [ none ↦ false | some r ↦ taken r ]
