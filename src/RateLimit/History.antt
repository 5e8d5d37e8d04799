-- ===== src/RateLimit/History.antt =====
-- The counters of an instance against the history of its requests.
use sentinel_soroban_v.Base.{
  ℕ, ◌+◌, ◌≤◌, ◌<◌, String, Bool, false, ◌&&◌, ◌||◌, Option, none, some, List, [], ◌∷◌, ◌≡◌, refl,
  sym, ◌∙◌, ap, subst, if◌then◌else◌, ◌==◌, ltb, str_eq, eq_iff, count, length, arith, Bool-cases,
  inl, inr,
}
use sentinel_soroban_v.RateLimit.{
  Entry, get, put, prune, window_of, counted, within, memory_allow, prune_above,
}
use sentinel_soroban_v.RateLimit.Memory.{
  IsMap, get-put, put-IsMap, select-IsMap, get-select, keep_if,
}

-- A call of `memoryAllow`.
pub record Request : Type 0 where
  pub bucket : String
  pub limit : ℕ
  pub secs : ℕ

-- The answers of an instance, in order.
unfoldable pub served : List Entry → List Request → List Bool
served memory [] = []
served memory (r ∷ rest) =
    let (allowed, memory') = memory_allow r.bucket r.limit r.secs memory in
    allowed ∷ served memory' rest

-- The requests of the bucket in the window.
abbrev pub hits : String → ℕ → List Request → ℕ
hits bucket window past = count (λ r. str_eq r.bucket bucket && window_of r.secs == window) past

-- The answers by the history: the first request of a bucket in a minute passes, and any other as
-- long as fewer than the limit came before it.
unfoldable pub expected : List Request → List Request → List Bool
expected past [] = []
expected past (r ∷ rest) =
    let before : ℕ = hits r.bucket (window_of r.secs) past in
    (before == 0 || ltb before r.limit) ∷ expected (r ∷ past) rest

-- The clock does not go back.
abbrev pub Rising : ℕ → List Request → Type 0
Rising secs [] = Unit
Rising secs (r ∷ rest) = (secs ≤ r.secs) × Rising r.secs rest

abbrev live : ℕ → Option Entry → ℕ
live window none = 0
live window (some e) = if e.window_start == window then e.count else 0

abbrev IsCounted : Option Entry → Type 0
IsCounted none = Unit
IsCounted (some e) = 0 < e.count

-- From the window on, the counters say how many requests came.
record Agrees (window : ℕ) (memory : List Entry) (past : List Request) : Type 0 where
  is_map : IsMap memory
  is_counted : (bucket : String) → IsCounted (get bucket memory)
  same : (bucket : String) (w : ℕ) → window ≤ w → live w (get bucket memory) ≡ hits bucket w past
  ahead : (bucket : String) (w : ℕ) → window < w → hits bucket w past ≡ 0

live-keep_if :
    (window w : ℕ) (o : Option Entry)
    → live w (keep_if (λ e. e.window_start == window) o) ≡ (if w == window then live w o else 0)
live-keep_if window w none = ground arith
live-keep_if window w (some e) = ground arith

keep_if-IsCounted : (p : Entry → Bool) (o : Option Entry) → IsCounted o → IsCounted (keep_if p o)
keep_if-IsCounted p none h = tt
keep_if-IsCounted p (some e) h = elim (Bool-cases (p e)) [
  | inl kept ↦ rw kept h
  | inr cut ↦ rw cut tt
]

-- A later window.
later :
    (v w : ℕ) (memory : List Entry) (past : List Request)
    → v ≤ w
    → Agrees v memory past
    → Agrees w memory past
later v w memory past le h = record {
  is_map = h.is_map;
  is_counted = h.is_counted;
  same = λ b x hx. h.same b x (omega arith);
  ahead = λ b x hx. h.ahead b x (omega arith);
}

-- Pruning forgets nothing of the window.
prune-Agrees :
    (window : ℕ) (memory : List Entry) (past : List Request)
    → Agrees window memory past
    → Agrees window (prune window memory) past
unfolding prune
prune-Agrees window memory past h = elim (Bool-cases (ltb prune_above (length memory))) [
  | inr few ↦ rw few h
  | inl many ↦ rw many (record {
    is_map = select-IsMap _ memory h.is_map;
    is_counted = λ b.
        rw (get-select b (λ e. e.window_start == window) memory h.is_map)
          (keep_if-IsCounted _ (get b memory) (h.is_counted b));
    same = λ b x hx.
        rw (get-select b (λ e. e.window_start == window) memory h.is_map)
          (ground (arith, live-keep_if window x (get b memory), h.same b x hx, h.ahead b x));
    ahead = h.ahead;
  })
]

within-live :
    (limit window : ℕ) (o : Option Entry)
    → IsCounted o
    → within limit window o ≡ (live window o == 0 || ltb (live window o) limit)
unfolding within
within-live limit window none h = refl
within-live limit window (some e) h = ground arith

counted-bucket :
    (bucket : String) (window : ℕ) (memory : List Entry)
    → (counted bucket window (get bucket memory)).bucket ≡ bucket
unfolding counted get
counted-bucket bucket window [] = refl
counted-bucket bucket window (e ∷ rest) =
    ground (arith, eq_iff e.bucket bucket, counted-bucket bucket window rest)

counted-IsCounted :
    (bucket : String) (window : ℕ) (o : Option Entry) → IsCounted (some (counted bucket window o))
unfolding counted
counted-IsCounted bucket window none = omega arith
counted-IsCounted bucket window (some e) = ground arith

live-counted :
    (bucket : String) (window w : ℕ) (o : Option Entry)
    → window ≤ w
    → live w (some (counted bucket window o)) ≡ (if w == window then live window o + 1 else 0)
unfolding counted
live-counted bucket window w none h = ground arith
live-counted bucket window w (some e) h = ground arith

-- what the map holds after a request
module _ (bucket : String) (window : ℕ) (memory : List Entry) where
  after : List Entry
  after = put (counted bucket window (get bucket memory)) memory

  get-after_same : get bucket after ≡ some (counted bucket window (get bucket memory))
  unfolding after
  get-after_same = ground (
    arith,
    get-put bucket (counted bucket window (get bucket memory)) memory,
    counted-bucket bucket window memory,
    eq_iff (counted bucket window (get bucket memory)).bucket bucket,
  )

  get-after_other : (b : String) → str_eq bucket b ≡ false → get b after ≡ get b memory
  unfolding after
  get-after_other b other =
      get-put b (counted bucket window (get bucket memory)) memory
      ∙ rw (counted-bucket bucket window memory) (rw other refl)

same_mine :
    (r : Request) (memory : List Entry) (past : List Request)
    → Agrees (window_of r.secs) memory past
    → (w : ℕ) → window_of r.secs ≤ w
    → live w (get r.bucket (after r.bucket (window_of r.secs) memory)) ≡ hits r.bucket w (r ∷ past)
same_mine r memory past h w hw = rw (get-after_same r.bucket (window_of r.secs) memory) (
    live-counted r.bucket (window_of r.secs) w (get r.bucket memory) hw
    ∙ rw ((eq_iff r.bucket r.bucket).1 refl)
        (ground (arith, h.same r.bucket w, h.ahead r.bucket w)))

-- The counters after a request.
counted-Agrees :
    (r : Request) (memory : List Entry) (past : List Request)
    → Agrees (window_of r.secs) memory past
    → Agrees (window_of r.secs) (after r.bucket (window_of r.secs) memory) (r ∷ past)
unfolding after
counted-Agrees r memory past h = record {
  is_map = put-IsMap _ memory h.is_map;
  is_counted = λ b. elim (Bool-cases (str_eq r.bucket b)) [
    | inl mine ↦
        rw (sym ((eq_iff r.bucket b).0 mine), get-after_same r.bucket (window_of r.secs) memory)
          (counted-IsCounted r.bucket (window_of r.secs) (get r.bucket memory))
    | inr other ↦ rw (get-after_other r.bucket (window_of r.secs) memory b other) (h.is_counted b)
  ];
  same = λ b x hx. elim (Bool-cases (str_eq r.bucket b)) [
    | inl mine ↦
        subst (λ c. live x (get c (after r.bucket (window_of r.secs) memory)) ≡ hits c x (r ∷ past))
          ((eq_iff r.bucket b).0 mine) (same_mine r memory past h x hx)
    | inr other ↦
        rw (get-after_other r.bucket (window_of r.secs) memory b other, other) (h.same b x hx)
  ];
  ahead = λ b x hx. ground (arith, h.ahead b x hx);
}

step-Agrees :
    (v : ℕ) (r : Request) (memory : List Entry) (past : List Request)
    → v ≤ window_of r.secs
    → Agrees v memory past
    → let window = window_of r.secs in
      let before : ℕ = hits r.bucket window past in
      let answered = memory_allow r.bucket r.limit r.secs memory in
      (answered.0 ≡ (before == 0 || ltb before r.limit)) × Agrees window answered.1 (r ∷ past)
unfolding memory_allow after
step-Agrees v r memory past le h =
    let window = window_of r.secs in
    let kept = prune-Agrees window memory past (later v window memory past le h) in
    (
      within-live r.limit window _ (kept.is_counted r.bucket)
          ∙ rw (kept.same r.bucket window (omega arith)) refl,
      counted-Agrees r (prune window memory) past kept,
    )

-- the windows of rising seconds rise
window_of_mono : (s t : ℕ) → s ≤ t → window_of s ≤ window_of t
window_of_mono s t h = omega arith

served-expected_from :
    (secs : ℕ) (memory : List Entry) (past requests : List Request)
    → Rising secs requests
    → Agrees (window_of secs) memory past
    → served memory requests ≡ expected past requests
unfolding served expected
served-expected_from secs memory past [] rising h = refl
served-expected_from secs memory past (r ∷ rest) rising h =
    let step = step-Agrees (window_of secs) r memory past (window_of_mono _ _ rising.0) h in
    rw step.0 (
      ap
        (λ t.
          (hits r.bucket (window_of r.secs) past == 0
            || ltb (hits r.bucket (window_of r.secs) past) r.limit)
          ∷ t)
        (served-expected_from r.secs _ (r ∷ past) rest rising.1 step.1))

-- The counters of an instance, which keep one entry for each bucket and forget the entries of past
-- minutes where they are too many, answer any sequence of requests of any buckets as the whole
-- history of the requests would: the first of its bucket in its minute passes, and any other
-- exactly if fewer requests of the bucket than its limit came before it in the same minute, whether
-- those passed or not. The clock of the instance does not go back.
pub served-expected :
    (requests : List Request) → Rising 0 requests → served [] requests ≡ expected [] requests
unfolding get
served-expected requests rising =
    served-expected_from 0 [] [] requests rising
      (record { is_map = tt; is_counted = λ b. tt; same = λ b w h. refl; ahead = λ b w h. refl })
