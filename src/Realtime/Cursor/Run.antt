-- ===== src/Realtime/Cursor/Run.antt =====
-- What a client takes is an unbroken run of numbers, whatever arrives.
use mortar.Prelude.{
  ℕ, zero, suc, ◌+◌, ◌-◌, ◌<◌, ◌≡◌, refl, sym, ap, ◌∙◌, subst, inl, inr, Bool, true, false, not,
  ◌&&◌, Option, some, List, [], ◌∷◌, map, any, filter, length, arith, ltb, leb, ◌==◌, Bool-cases,
  ==_iff,
}
use mortar.Realtime.Wire.{RealtimeEvent}
use mortar.Realtime.Cursor.{
  ChannelCursor, Verdict, take, skip, gap, verdict_at, judged, moved_by, offer, missing,
  missing_from, have, highest,
}

abbrev pub kept : Verdict → RealtimeEvent → List RealtimeEvent → List RealtimeEvent
kept take e es = e ∷ es
kept skip e es = es
kept gap e es = es

-- Events offered one after another: those taken, and the cursor after them.
unfoldable pub offer_all : List RealtimeEvent → ChannelCursor → List RealtimeEvent × ChannelCursor
unfolding offer
offer_all [] cursor = ([], cursor)
offer_all (e ∷ es) cursor =
    let (verdict, after) = offer e cursor in
    let (taken, at_end) = offer_all es after in (kept verdict e taken, at_end)

abbrev pub on_channel : ℕ → RealtimeEvent → Bool
on_channel channel e = e.channel == channel

abbrev pub seqs_on : ℕ → List RealtimeEvent → List ℕ
seqs_on channel es = map (λ (e : RealtimeEvent). e.seq) (filter (on_channel channel) es)

-- The `k` numbers after `n`.
abbrev pub run_after : ℕ → ℕ → List ℕ
run_after n zero = []
run_after n (suc k) = (n + 1) ∷ run_after (n + 1) k

-- What a verdict does to the position in a channel.
data Moves (c n : ℕ) (v : Verdict) (e : RealtimeEvent) (cursor : ChannelCursor) : Type 0 where
  stays :
      moved_by v e cursor c ≡ some n
      → ((es : List RealtimeEvent) → seqs_on c (kept v e es) ≡ seqs_on c es)
      → Moves c n v e cursor
  moves :
      moved_by v e cursor c ≡ some (n + 1)
      → ((es : List RealtimeEvent) → seqs_on c (kept v e es) ≡ (n + 1) ∷ seqs_on c es)
      → Moves c n v e cursor

elsewhere :
    (c n : ℕ) (v : Verdict) (e : RealtimeEvent) (cursor : ChannelCursor)
    → (e.channel == c) ≡ false
    → cursor c ≡ some n
    → Moves c n v e cursor
elsewhere c n take e cursor other at_ = stays (rw other at_) (λ es. rw other refl)
elsewhere c n skip e cursor other at_ = stays at_ (λ es. refl)
elsewhere c n gap e cursor other at_ = stays at_ (λ es. refl)

here :
    (c n : ℕ) (v : Verdict) (e : RealtimeEvent) (cursor : ChannelCursor)
    → (e.channel == c) ≡ true
    → cursor c ≡ some n
    → judged n e.seq ≡ v
    → Moves c n v e cursor
here c n take e cursor mine at_ v =
    let next : e.seq ≡ n + 1 = ground arith in
    moves (rw mine (ap some next)) (λ es. rw mine (ap (λ (k : ℕ). k ∷ seqs_on c es) next))
here c n skip e cursor mine at_ v = stays at_ (λ es. refl)
here c n gap e cursor mine at_ v = stays at_ (λ es. refl)

offer-Moves :
    (c n : ℕ) (e : RealtimeEvent) (cursor : ChannelCursor)
    → 0 < n
    → cursor c ≡ some n
    → Moves c n (verdict_at (cursor e.channel) e.seq) e cursor
offer-Moves c n e cursor h at_ = elim (Bool-cases (e.channel == c)) [
  | inl mine ↦
      let there : cursor e.channel ≡ some n = ap cursor ((==_iff e.channel c).0 mine) ∙ at_ in
      here c n (verdict_at (cursor e.channel) e.seq) e cursor mine at_
        (sym (ap (λ o. verdict_at o e.seq) there ∙ ground arith))
  | inr other ↦ elsewhere c n (verdict_at (cursor e.channel) e.seq) e cursor other at_
]

-- Numbers taken after `n`, and where the client then stands.
abbrev pub IsRunAfter : ℕ → List ℕ → Option ℕ → Type 0
IsRunAfter n seqs at_end = (seqs ≡ run_after n (length seqs)) × (at_end ≡ some (n + length seqs))

-- Whatever events arrive, on any channels, in any order, a client that stands above 0 in a channel
-- takes from it exactly the numbers that follow its position, none twice and none left out, and
-- ends at the last of them.
pub offer_all-IsRunAfter :
    (c n : ℕ) (es : List RealtimeEvent) (cursor : ChannelCursor)
    → 0 < n
    → cursor c ≡ some n
    → let (taken, at_end) = offer_all es cursor in IsRunAfter n (seqs_on c taken) (at_end c)
unfolding offer offer_all
offer_all-IsRunAfter c n [] cursor h at_ = (refl, at_ ∙ ap some (omega arith))
offer_all-IsRunAfter c n (e ∷ es) cursor h at_ =
    let v = verdict_at (cursor e.channel) e.seq in
    elim (offer-Moves c n e cursor h at_) [
      | stays same seqs ↦
          let (run, ends) = offer_all-IsRunAfter c n es (moved_by v e cursor) h same in
          subst (λ (l : List ℕ). IsRunAfter n l ((offer_all es (moved_by v e cursor)).1 c))
            (sym (seqs (offer_all es (moved_by v e cursor)).0)) (run, ends)
      | moves next seqs ↦
          let (run, ends) =
            offer_all-IsRunAfter c (n + 1) es (moved_by v e cursor) (omega arith) next in
          let taken = seqs_on c (offer_all es (moved_by v e cursor)).0 in
          let sum : n + 1 + length taken ≡ n + suc (length taken) = omega arith in
          subst (λ (l : List ℕ). IsRunAfter n l ((offer_all es (moved_by v e cursor)).1 c))
            (sym (seqs (offer_all es (moved_by v e cursor)).0))
            (ap (λ (l : List ℕ). (n + 1) ∷ l) run, ends ∙ ap some sum)
    ]

abbrev pub is_listed : ℕ → List ℕ → Bool
is_listed q l = any (λ s. s == q) l

missing_from_lem :
    (q seq n : ℕ) (es : List RealtimeEvent)
    → is_listed q (missing_from seq n es) ≡ (leb seq q && ltb q (seq + n) && not (have es q))
unfolding missing_from
missing_from_lem q seq zero es = ground arith
missing_from_lem q seq (suc n) es = elim (Bool-cases (seq == q)) [
  | inl same ↦
      let at_ : seq ≡ q = (==_iff seq q).0 same in
      ground (arith, missing_from_lem q (seq + 1) n es, ap (have es) at_)
  | inr apart ↦ ground (arith, missing_from_lem q (seq + 1) n es)
]

-- A number is listed as missing exactly when it lies after the position and before the highest of
-- the batch, and the batch lacks it.
pub missing_lem :
    (q from : ℕ) (es : List RealtimeEvent)
    → is_listed q (missing from es) ≡ (ltb from q && ltb q (highest es) && not (have es q))
unfolding missing
missing_lem q from [] = ground arith
missing_lem q from (e ∷ es) =
    ground (arith, missing_from_lem q (from + 1) (highest (e ∷ es) - (from + 1)) (e ∷ es))
