-- ===== src/RiskMgmt/Ledger.antt =====
-- services/risk-mgmt/src/core/order_ledger.py. A session is the ordinal of its UTC date: the ISO text
-- of the code is a one-to-one, order-keeping spelling of it, and so the text `symbol|side|session`
-- is modelled by its three parts.
pub mod Sessions
pub mod Memory
use market_app.Prelude.{
  ℕ, zero, suc, ◌+◌, ◌/◌, String, ◌≡◌, ◌↔◌, Bool, true, false, ◌&&◌, Option, none, some, List, [],
  ◌∷◌, arith, ltb, leb, if◌then◌else◌, length, take, Eq, ◌==◌, String_eq, ℕ_eq,
}
use market_app.Prelude.Int.{ℤ, pos, sub_ℕ, pos_part, neg_part, ◌-ℤ◌}
use market_app.Prelude.Dict.{Dict, get, put, keep_values, contains}

-- Seconds since the beginning of the calendar on the local wall clock, and the offset from UTC if
-- the `datetime` has a zone.
pub record Timestamp : Type 0 where
  pub local_s : ℕ
  pub utc_offset_s : Option ℤ

unfoldable pub session_of : Timestamp → ℕ
unfolding ◌-ℤ◌
session_of t = elim t.utc_offset_s [
  | none ↦ t.local_s / 86_400
  | some offset ↦ pos_part (pos t.local_s -ℤ offset) / 86_400
]

pub record Key : Type 0 where
  pub symbol : String
  pub side : String
  pub session : ℕ

abbrev pub same_key : Key → Key → Bool
same_key a b = a.symbol == b.symbol && (a.side == b.side && a.session == b.session)

pub same_key_iff : (a b : Key) → (same_key a b ≡ true) ↔ (a ≡ b)
same_key_iff a b =
    ground (arith, String_eq.beq_iff a.symbol b.symbol, String_eq.beq_iff a.side b.side)

instance abbrev pub Key_eq : Eq Key
Key_eq = record { beq = same_key; beq_iff = same_key_iff }

-- `_placed` and `_keep_sessions`.
pub record Ledger : Type 0 where
  pub placed : Dict Key ℕ
  pub keep_sessions : ℕ

-- `sorted(set(values), reverse=True)`
pub insert_desc : ℕ → List ℕ → List ℕ
insert_desc s [] = s ∷ []
insert_desc s (x ∷ xs) =
    if x == s then x ∷ xs else if ltb x s then s ∷ x ∷ xs else x ∷ insert_desc s xs

unfoldable pub sessions_desc : Dict Key ℕ → List ℕ
unfolding insert_desc
sessions_desc [] = []
sessions_desc ((k, s) ∷ d) = insert_desc s (sessions_desc d)

abbrev pub among : List ℕ → ℕ → Bool
among [] s = false
among (x ∷ xs) s = if x == s then true else among xs s

unfoldable pub already_placed : Ledger → Key → Bool
already_placed l k = contains k l.placed

unfoldable pub prune : Ledger → Ledger
unfolding sessions_desc
prune l =
    let sessions = sessions_desc l.placed in
    if leb (length sessions) l.keep_sessions
    then l
    else record l { placed = keep_values (among (take l.keep_sessions sessions)) l.placed }

unfoldable pub record_order : Ledger → Key → Ledger
record_order l k = prune (record l { placed = put k k.session l.placed })

unfoldable pub snapshot : Ledger → Dict Key ℕ
snapshot l = l.placed

-- `restore` of the parsed snapshot; an empty one leaves the ledger as it is.
unfoldable pub restore : Ledger → Dict Key ℕ → Ledger
restore l [] = l
restore l (entry ∷ rest) = prune (record l { placed = entry ∷ rest })
