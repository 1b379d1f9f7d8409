-- ===== src/Console/Kyb/Throttle/Bounds.antt =====
-- How many submissions the throttle of apps/web/src/app/api/kyb/route.ts lets through.
use solva.Prelude.{
  ℕ, ◌+◌, ◌-◌, ◌≤◌, ◌≡◌, ap, ◌∙◌, Bool, false, ◌&&◌, not, List, [], ◌∷◌, Option, none, some, ltb,
  leb, if◌then◌else◌, Bool-cases, inl, inr, arith, All,
}
use solva.Prelude.Text.{Text, text_eq, text_eq_iff, text_eq_refl}
use solva.Console.Kyb.Throttle.{
  Entry, Hits, window_ms, get, put, open_window, count_hit, limit, rate_limited,
}

get-put_self : (ip : Text) (entry : Entry) (hits : Hits) → get ip (put ip entry hits) ≡ some entry
unfolding get put
get-put_self ip entry [] = simp (text_eq_refl ip)
get-put_self ip entry ((key, old) ∷ hits) = elim (Bool-cases (text_eq key ip)) [
  | inl h ↦ simp h
  | inr h ↦ simp (h, get-put_self ip entry hits)
]

get-put_ne :
    (ip other : Text) (entry : Entry) (hits : Hits)
    → text_eq other ip ≡ false
    → get ip (put other entry hits) ≡ get ip hits
unfolding get put
get-put_ne ip other entry [] h = simp h
get-put_ne ip other entry ((key, old) ∷ hits) h = elim (Bool-cases (text_eq key other)) [
  | inl same ↦
      let at_other : key ≡ other = (text_eq_iff key other).0 same in
      let not_ip : text_eq key ip ≡ false = ap (λ k. text_eq k ip) at_other ∙ h in
      simp (same, not_ip)
  | inr differs ↦ elim (Bool-cases (text_eq key ip)) [
    | inl at_ip ↦ simp (differs, at_ip)
    | inr apart ↦ simp (differs, apart, get-put_ne ip other entry hits h)
  ]
]

-- The calls the throttle lets through for one address, of calls that are an address and a time.
pub accepted : Text → List (Text × ℕ) → Hits → ℕ
accepted ip [] hits = 0
accepted ip ((caller, now) ∷ calls) hits =
    let (limited, after) = rate_limited caller now hits in
    (if text_eq caller ip && not limited then 1 else 0) + accepted ip calls after

-- What an entry still lets through up to `end`: a window that ends before it can be opened anew.
budget : ℕ → Option Entry → ℕ
budget end none = 5
budget end (some entry) = if leb end entry.reset_at then 5 - entry.count else 5 - entry.count + 5

gain : Bool → ℕ
gain limited = if not limited then 1 else 0

budget-limit :
    (ip : Text) (end now : ℕ) (entry : Option Entry) (hits : Hits)
    → now ≤ end
    → end ≤ now + 60000
    → gain (limit entry ip now hits).0 + budget end (get ip (limit entry ip now hits).1)
      ≤ budget end entry
unfolding limit open_window count_hit gain budget
budget-limit ip end now none hits h k =
    grind (arith, get-put_self ip (record { count = 1; reset_at = now + 60000 }) hits)
budget-limit ip end now (some entry) hits h k = grind (
  arith,
  get-put_self ip (record { count = 1; reset_at = now + 60000 }) hits,
  get-put_self ip (record entry { count = entry.count + 1 }) hits,
)

get-limit_ne :
    (ip other : Text) (now : ℕ) (entry : Option Entry) (hits : Hits)
    → text_eq other ip ≡ false
    → get ip (limit entry other now hits).1 ≡ get ip hits
unfolding limit open_window count_hit
get-limit_ne ip other now none hits h = get-put_ne ip other _ hits h
get-limit_ne ip other now (some entry) hits h = elim (Bool-cases (ltb entry.reset_at now)) [
  | inl late ↦ simp (late, get-put_ne ip other _ hits h)
  | inr soon ↦ simp (soon, get-put_ne ip other _ hits h)
]

-- Calls within `window_ms` behind `start`.
unfoldable pub WithinWindow : ℕ → Text × ℕ → Type 0
WithinWindow start call = (start ≤ call.1) × (call.1 ≤ start + window_ms)

budget-rate_limited :
    (ip caller : Text) (end now : ℕ) (hits : Hits)
    → now ≤ end
    → end ≤ now + 60000
    → (if text_eq caller ip && not (rate_limited caller now hits).0 then 1 else 0)
        + budget end (get ip (rate_limited caller now hits).1)
      ≤ budget end (get ip hits)
unfolding rate_limited gain
budget-rate_limited ip caller end now hits h k = elim (Bool-cases (text_eq caller ip)) [
  | inl same ↦
      let at_ip : caller ≡ ip = (text_eq_iff caller ip).0 same in
      let spent = budget-limit ip end now (get ip hits) hits h k in
      rw (at_ip, text_eq_refl ip) spent
  | inr other ↦
      let kept = get-limit_ne ip caller now (get caller hits) hits other in
      rw (other, kept) (omega arith)
]

accepted-budget :
    (ip : Text) (start : ℕ) (calls : List (Text × ℕ)) (hits : Hits)
    → All (WithinWindow start) calls
    → accepted ip calls hits ≤ budget (start + 60000) (get ip hits)
unfolding accepted WithinWindow
accepted-budget ip start [] hits h = omega arith
accepted-budget ip start ((caller, now) ∷ calls) hits h =
    let rest = accepted-budget ip start calls (rate_limited caller now hits).1 h.1 in
    let spent =
      budget-rate_limited ip caller (start + 60000) now hits (omega arith) (omega arith) in
    omega arith

budget_le : (end : ℕ) (entry : Option Entry) → budget end entry ≤ 10
unfolding budget
budget_le end none = omega arith
budget_le end (some entry) = ground arith

-- Of any calls whose times lie within one minute, the throttle lets at most five of an address
-- through that it holds no entry for, and never more than ten of any address.
pub accepted-in_window :
    (ip : Text) (start : ℕ) (calls : List (Text × ℕ)) (hits : Hits)
    → All (WithinWindow start) calls
    → (accepted ip calls hits ≤ 10) × (get ip hits ≡ none → accepted ip calls hits ≤ 5)
unfolding budget
accepted-in_window ip start calls hits h =
    let bound = accepted-budget ip start calls hits h in
    let at_most = budget_le (start + 60000) (get ip hits) in
    (omega arith, λ unknown. omega (arith, ap (budget (start + 60000)) unknown))
