-- ===== src/RateLimit/Memory.antt =====
-- The counters of an instance as a map.
use sentinel_soroban_v.Base.{
  String, Bool, false, none, some, List, [], ◌∷◌, ◌≡◌, refl, if◌then◌else◌, select, str_eq, eq_iff,
  arith, Bool-cases, inl, inr, Option,
}
use sentinel_soroban_v.RateLimit.{Entry, get, put}

-- No key stands twice.
abbrev pub IsMap : List Entry → Type 0
IsMap [] = Unit
IsMap (e ∷ rest) = (get e.bucket rest ≡ none) × IsMap rest

pub get-put :
    (bucket : String) (e : Entry) (memory : List Entry)
    → get bucket (put e memory) ≡ (if str_eq e.bucket bucket then some e else get bucket memory)
unfolding get put
get-put bucket e [] = refl
get-put bucket e (x ∷ rest) = ground (
  arith,
  get-put bucket e rest,
  eq_iff x.bucket e.bucket,
  eq_iff x.bucket bucket,
  eq_iff e.bucket bucket,
)

kept_apart :
    (e x : Entry) (rest : List Entry)
    → get x.bucket rest ≡ none
    → str_eq x.bucket e.bucket ≡ false
    → get x.bucket (put e rest) ≡ none
kept_apart e x rest h other =
    ground (arith, get-put x.bucket e rest, eq_iff e.bucket x.bucket, eq_iff x.bucket e.bucket)

pub put-IsMap : (e : Entry) (memory : List Entry) → IsMap memory → IsMap (put e memory)
unfolding put get
put-IsMap e [] h = (refl, tt)
put-IsMap e (x ∷ rest) h = elim (Bool-cases (str_eq x.bucket e.bucket)) [
  | inl same ↦ rw same (rw ((eq_iff x.bucket e.bucket).0 same) at h.0, h.1)
  | inr other ↦ rw other (kept_apart e x rest h.0 other, put-IsMap e rest h.1)
]

get-select-none :
    (bucket : String) (p : Entry → Bool) (memory : List Entry)
    → get bucket memory ≡ none
    → get bucket (select p memory) ≡ none
unfolding get
get-select-none bucket p [] h = refl
get-select-none bucket p (x ∷ rest) h = ground (arith, get-select-none bucket p rest)

pub select-IsMap : (p : Entry → Bool) (memory : List Entry) → IsMap memory → IsMap (select p memory)
select-IsMap p [] h = tt
select-IsMap p (x ∷ rest) h = elim (Bool-cases (p x)) [
  | inl kept ↦ rw kept (get-select-none x.bucket p rest h.0, select-IsMap p rest h.1)
  | inr cut ↦ rw cut (select-IsMap p rest h.1)
]

abbrev pub keep_if : (Entry → Bool) → Option Entry → Option Entry
keep_if p none = none
keep_if p (some e) = if p e then some e else none

pub get-select :
    (bucket : String) (p : Entry → Bool) (memory : List Entry)
    → IsMap memory
    → get bucket (select p memory) ≡ keep_if p (get bucket memory)
unfolding get
get-select bucket p [] h = refl
get-select bucket p (x ∷ rest) h =
    ground
      (arith, get-select bucket p rest h.1, get-select-none bucket p rest, eq_iff x.bucket bucket)
