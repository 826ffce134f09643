-- ===== src/Realtime/Backlog/Carried.antt =====
-- What a backlog holds after any publications: the newest of everything each channel has carried.
use mortar.Prelude.{
  ℕ, zero, suc, ◌+◌, ◌-◌, ◌≤◌, ◌<◌, ◌≡◌, refl, sym, ap, ◌∙◌, subst, inl, inr, none, List, [], ◌∷◌,
  ◌++◌, filter, drop, length, length-append, arith, ltb, ◌==◌, if◌then◌else◌, Bool-cases, ==_iff,
}
use mathlib.Core.List.{append-nil, append_assoc}
use mortar.Prelude.Int.{pos}
use mortar.Realtime.Wire.{RealtimeEvent, Channels}
use mortar.Realtime.Backlog.{
  NewEvent, Held, stored, held_or_new, trim, push, append, later, bounds_of, last_seq,
}

-- Everything a channel has carried, numbered on from `n`.
abbrev pub numbered : ℕ → ℕ → List NewEvent → List RealtimeEvent
numbered channel n [] = []
numbered channel n (e ∷ es) = stored channel n e ∷ numbered channel (n + 1) es

-- A history: what was published, on which channel, the oldest first.
abbrev pub append_all : ℕ → List (ℕ × NewEvent) → Channels Held → Channels Held
append_all keep [] channels = channels
append_all keep ((c, e) ∷ es) channels = append_all keep es (append keep c e channels).1

abbrev pub published_on : ℕ → List (ℕ × NewEvent) → List NewEvent
published_on channel [] = []
published_on channel ((c, e) ∷ es) =
    if c == channel then e ∷ published_on channel es else published_on channel es

-- The last `keep` of a list.
abbrev pub newest {ℓ} : {A : Type ℓ} → ℕ → List A → List A
newest keep xs = drop (length xs - keep) xs

pub length-drop : {A : Type 0} (n : ℕ) (xs : List A) → length (drop n xs) ≡ length xs - n
length-drop zero xs = omega arith
length-drop (suc n) [] = omega arith
length-drop (suc n) (x ∷ xs) = omega (arith, length-drop n xs)

drop-append :
    {A : Type 0} (n : ℕ) (xs ys : List A) → n ≤ length xs → drop n (xs ++ ys) ≡ drop n xs ++ ys
drop-append zero xs ys h = refl
drop-append (suc n) [] ys h = absurd (omega arith)
drop-append (suc n) (x ∷ xs) ys h = drop-append n xs ys (omega arith)

pub drop-nil : {A : Type 0} (n : ℕ) → drop {A = A} n [] ≡ []
drop-nil zero = refl
drop-nil (suc n) = refl

drop-drop : {A : Type 0} (m n : ℕ) (xs : List A) → drop m (drop n xs) ≡ drop (n + m) xs
drop-drop m zero xs = ap (λ (k : ℕ). drop k xs) (omega arith)
drop-drop {A} m (suc n) [] = drop-nil m ∙ sym (drop-nil {A = A} (suc n + m))
drop-drop m (suc n) (x ∷ xs) =
    let same : suc (n + m) ≡ suc n + m = omega arith in
    drop-drop m n xs ∙ ap (λ (k : ℕ). drop k (x ∷ xs)) same

pub length-numbered : (c n : ℕ) (es : List NewEvent) → length (numbered c n es) ≡ length es
length-numbered c n [] = refl
length-numbered c n (e ∷ es) = omega (arith, length-numbered c (n + 1) es)

numbered-append :
    (c n : ℕ) (es : List NewEvent) (e : NewEvent)
    → numbered c n (es ++ (e ∷ [])) ≡ numbered c n es ++ (stored c (n + length es) e ∷ [])
numbered-append c n [] e = ap (λ (k : ℕ). stored c k e ∷ []) (omega arith)
numbered-append c n (x ∷ es) e =
    let same : n + 1 + length es ≡ n + suc (length es) = omega arith in
    ap (λ l. stored c n x ∷ l)
      (numbered-append c (n + 1) es e
        ∙ ap (λ (k : ℕ). numbered c (n + 1) es ++ (stored c k e ∷ [])) same)

trim-newest :
    (keep : ℕ) (xs : List RealtimeEvent) (x : RealtimeEvent)
    → trim keep (newest keep xs ++ (x ∷ [])) ≡ newest keep (xs ++ (x ∷ []))
trim-newest keep xs x =
    let d = length xs - keep in
    let one = x ∷ [] in
    let all_of = drop d xs ++ one in
    let counted : length all_of ≡ length xs - d + 1 =
      omega (arith, length-append (drop d xs) one, length-drop d xs) in
    let appended = sym (drop-append d xs one (omega arith)) in
    let length_all = length-append xs one in
    elim (Bool-cases (ltb keep (length all_of))) [
      | inl e ↦
          let sum : d + (length all_of - keep) ≡ length (xs ++ one) - keep = ground arith in
          rw e (
            ap (drop (length all_of - keep)) appended
            ∙ drop-drop (length all_of - keep) d (xs ++ one)
            ∙ ap (λ (k : ℕ). drop k (xs ++ one)) sum)
      | inr e ↦
          let sum : d ≡ length (xs ++ one) - keep = ground arith in
          rw e (appended ∙ ap (λ (k : ℕ). drop k (xs ++ one)) sum)
    ]

-- What is held of a channel that has carried `es`.
pub record Windowed (keep channel : ℕ) (es : List NewEvent) (held : Held) : Type 0 where
  pub window : held.events ≡ newest keep (numbered channel 1 es)
  pub next : held.next ≡ length es + 1

push-Windowed :
    (keep c : ℕ) (es : List NewEvent) (e : NewEvent) (held : Held)
    → Windowed keep c es held
    → Windowed keep c (es ++ (e ∷ [])) (push keep c e held)
push-Windowed keep c es e held w = record {
  window =
      let log = numbered c 1 es in
      let next : held.next ≡ 1 + length es = omega (arith, w.next) in
      ap (λ l. trim keep (l ++ (stored c held.next e ∷ []))) w.window
      ∙ trim-newest keep log (stored c held.next e)
      ∙ ap (λ (k : ℕ). newest keep (log ++ (stored c k e ∷ []))) next
      ∙ sym (ap (newest keep) (numbered-append c 1 es e));
  next = omega (arith, w.next, length-append es (e ∷ []));
}

-- An empty channel is as one that was never written to.
abbrev pub WindowedAt : ℕ → ℕ → List NewEvent → Channels Held → Type 0
WindowedAt keep c es channels = Windowed keep c es (held_or_new (channels c))

append-Windowed :
    (keep c k : ℕ) (e : NewEvent) (es : List NewEvent) (channels : Channels Held)
    → WindowedAt keep c es channels
    → WindowedAt keep c (es ++ (if k == c then e ∷ [] else [])) (append keep k e channels).1
unfolding append
append-Windowed keep c k e es channels w = elim (Bool-cases (k == c)) [
  | inl mine ↦ rw mine (
      subst (λ (j : ℕ). Windowed keep c (es ++ (e ∷ [])) (push keep j e (held_or_new (channels j))))
        (sym ((==_iff k c).0 mine)) (push-Windowed keep c es e (held_or_new (channels c)) w))
  | inr other ↦
      rw other (subst (λ (l : List NewEvent). WindowedAt keep c l channels) (sym (append-nil es)) w)
]

pub append_all-Windowed :
    (keep c : ℕ) (ops : List (ℕ × NewEvent)) (es : List NewEvent) (channels : Channels Held)
    → WindowedAt keep c es channels
    → WindowedAt keep c (es ++ published_on c ops) (append_all keep ops channels)
append_all-Windowed keep c [] es channels w =
    subst (λ (l : List NewEvent). WindowedAt keep c l channels) (sym (append-nil es)) w
append_all-Windowed keep c ((k, e) ∷ ops) es channels w =
    let mine = if k == c then e ∷ [] else [] in
    let split : mine ++ published_on c ops ≡ published_on c ((k, e) ∷ ops) =
      elim (Bool-cases (k == c)) [ inl y ↦ rw y refl | inr n ↦ rw n refl ] in
    subst (λ (l : List NewEvent). WindowedAt keep c l (append_all keep ((k, e) ∷ ops) channels))
      (append_assoc es mine (published_on c ops) ∙ ap (λ l. es ++ l) split)
      (append_all-Windowed keep c ops (es ++ mine) (append keep k e channels).1
        (append-Windowed keep c k e es channels w))

last_seq-numbered :
    (c n : ℕ) (es : List NewEvent) → last_seq n (numbered c (n + 1) es) ≡ n + length es
last_seq-numbered c n [] = omega arith
last_seq-numbered c n (e ∷ es) = omega (arith, last_seq-numbered c (n + 1) es)

pub bounds_window :
    (c n d : ℕ) (es : List NewEvent)
    → d < length es
    → bounds_of (drop d (numbered c n es))
      ≡ record { oldest = n + d; latest = n + length es - 1; first = none }
bounds_window c n d [] h = absurd (omega arith)
bounds_window c n zero (e ∷ es) h = ground (arith, last_seq-numbered c n es)
bounds_window c n (suc d) (e ∷ es) h = ground (arith, bounds_window c (n + 1) d es)

pub filter-drop :
    (c n d p : ℕ) (es : List NewEvent)
    → n + d ≤ p + 1
    → filter (later (pos p)) (drop d (numbered c n es)) ≡ filter (later (pos p)) (numbered c n es)
filter-drop c n zero p es h = refl
filter-drop c n (suc d) p [] h = refl
filter-drop c n (suc d) p (e ∷ es) h = ground (arith, filter-drop c (n + 1) d p es)

pub filter-none :
    (c n p : ℕ) (es : List NewEvent)
    → n + length es ≤ p + 1
    → filter (later (pos p)) (numbered c n es) ≡ []
filter-none c n p [] h = refl
filter-none c n p (e ∷ es) h = ground (arith, filter-none c (n + 1) p es)
