-- ===== src/Metrics/History.antt =====
-- What a snapshot shows is what was reported since the last reset.
use rez_sdk.Common.{
  ℕ, suc, ◌+◌, min, max, ◌≡◌, refl, ap, ◌∙◌, true, false, Option, none, some, List, [], ◌∷◌, String,
  str_eq, eq_iff, if◌then◌else◌, length, arith, inl, inr, Bool-cases,
}
use rez_sdk.Common.Dict.{Dict, lookup, insert, lookup-insert}
use rez_sdk.Metrics.{
  Histogram, MetricsCollector, Summary, or_zero, lower, raise, or_fresh, add_value, summary_of,
  summaries, snapshot, increment, record_value, reset,
}

pub data Op : Type 0 where
  increment_op : String → ℕ → Op
  record_op : String → Option ℕ → Op
  reset_op : Op

unfoldable pub perform : Op → MetricsCollector → MetricsCollector
perform (increment_op name v) c = increment name v c
perform (record_op name v) c = record_value name v c
perform reset_op c = reset c

unfoldable pub perform_all : List Op → MetricsCollector → MetricsCollector
perform_all [] c = c
perform_all (o ∷ os) c = perform_all os (perform o c)

-- The values recorded under a name since the last reset, the last one first, on top of `vs`.
abbrev pub noted : String → Op → List ℕ → List ℕ
noted name (increment_op _ _) vs = vs
noted name (record_op key none) vs = vs
noted name (record_op key (some v)) vs = if str_eq key name then v ∷ vs else vs
noted name reset_op vs = []

unfoldable pub recorded : String → List Op → List ℕ → List ℕ
recorded name [] vs = vs
recorded name (o ∷ os) vs = recorded name os (noted name o vs)

-- The total counted under a name since the last reset, on top of `n`: `none`, if nothing was counted.
abbrev pub counted_by : String → Op → Option ℕ → Option ℕ
counted_by name (increment_op key v) n = if str_eq key name then some (or_zero n + v) else n
counted_by name (record_op _ _) n = n
counted_by name reset_op n = none

unfoldable pub counted : String → List Op → Option ℕ → Option ℕ
counted name [] n = n
counted name (o ∷ os) n = counted name os (counted_by name o n)

abbrev pub total : List ℕ → ℕ
total [] = 0
total (v ∷ vs) = total vs + v

abbrev pub least : ℕ → List ℕ → ℕ
least v [] = v
least v (w ∷ ws) = min v (least w ws)

abbrev pub greatest : ℕ → List ℕ → ℕ
greatest v [] = v
greatest v (w ∷ ws) = max v (greatest w ws)

-- The summary of the recorded values.
abbrev pub summary_for : List ℕ → Option Summary
summary_for [] = none
summary_for (v ∷ vs) = some (record {
  count = suc (length vs);
  sum = total vs + v;
  min = least v vs;
  max = greatest v vs;
  avg = (total vs + v, suc (length vs));
})

abbrev histogram_for : List ℕ → Option Histogram
histogram_for [] = none
histogram_for (v ∷ vs) = some (record {
  count = suc (length vs);
  sum = total vs + v;
  min = some (least v vs);
  max = some (greatest v vs);
})

lower_least : (v m : ℕ) → lower v (some m) ≡ some (min v m)
lower_least v m = ground arith

raise_greatest : (v m : ℕ) → raise v (some m) ≡ some (max v m)
raise_greatest v m = ground arith

add_value-histogram_for :
    (v : ℕ) (vs : List ℕ)
    → some (add_value v (or_fresh (histogram_for vs))) ≡ histogram_for (v ∷ vs)
add_value-histogram_for v [] = refl
add_value-histogram_for v (w ∷ ws) =
    let next : suc (length ws) + 1 ≡ suc (suc (length ws)) = omega arith in
    rw (lower_least, raise_greatest, next) refl

-- What a collector knows of one name.
record Knows (name : String) (n : Option ℕ) (vs : List ℕ) (c : MetricsCollector) : Type 0 where
  counter : lookup name c.counters ≡ n
  histogram : lookup name c.histograms ≡ histogram_for vs

written :
    {A : Type 0} (key name : String) (a : A) (m : Dict A)
    → str_eq key name ≡ true
    → lookup name (insert key a m) ≡ some a
written key name a m e = lookup-insert key name a m ∙ rw e refl

unwritten :
    {A : Type 0} (key name : String) (a : A) (m : Dict A)
    → str_eq key name ≡ false
    → lookup name (insert key a m) ≡ lookup name m
unwritten key name a m e = lookup-insert key name a m ∙ rw e refl

perform-Knows :
    (name : String) (o : Op) (n : Option ℕ) (vs : List ℕ) (c : MetricsCollector)
    → Knows name n vs c
    → Knows name (counted_by name o n) (noted name o vs) (perform o c)
unfolding perform increment record_value reset
perform-Knows name (increment_op key v) n vs c k = elim (Bool-cases (str_eq key name)) [
  | inl e ↦
      let known = ap (λ x. lookup x c.counters) ((eq_iff key name).0 e) ∙ k.counter in
      rw e (record {
        counter =
            written key name (or_zero (lookup key c.counters) + v) c.counters e
            ∙ ap (λ x. some (or_zero x + v)) known;
        histogram = k.histogram;
      })
  | inr e ↦ rw e (record {
    counter = unwritten key name (or_zero (lookup key c.counters) + v) c.counters e ∙ k.counter;
    histogram = k.histogram;
  })
]
perform-Knows name (record_op key none) n vs c k = record {
  counter = k.counter;
  histogram = k.histogram;
}
perform-Knows name (record_op key (some v)) n vs c k =
    let hist = add_value v (or_fresh (lookup key c.histograms)) in
    elim (Bool-cases (str_eq key name)) [
      | inl e ↦
          let known = ap (λ x. lookup x c.histograms) ((eq_iff key name).0 e) ∙ k.histogram in
          rw e (record {
            counter = k.counter;
            histogram =
                written key name hist c.histograms e
                ∙ ap (λ x. some (add_value v (or_fresh x))) known
                ∙ add_value-histogram_for v vs;
          })
      | inr e ↦ rw e (record {
        counter = k.counter;
        histogram = unwritten key name hist c.histograms e ∙ k.histogram;
      })
    ]
perform-Knows name reset_op n vs c k = unfold lookup in record { counter = refl; histogram = refl }

perform_all-Knows :
    (name : String) (os : List Op) (n : Option ℕ) (vs : List ℕ) (c : MetricsCollector)
    → Knows name n vs c
    → Knows name (counted name os n) (recorded name os vs) (perform_all os c)
unfolding perform_all counted recorded
perform_all-Knows name [] n vs c k = k
perform_all-Knows name (o ∷ os) n vs c k =
    perform_all-Knows name os (counted_by name o n) (noted name o vs) (perform o c)
      (perform-Knows name o n vs c k)

abbrev summarised : Option Histogram → Option Summary
summarised none = none
summarised (some h) = some (summary_of h)

lookup-summaries :
    (name : String) (m : Dict Histogram) → lookup name (summaries m) ≡ summarised (lookup name m)
unfolding summaries lookup
lookup-summaries name [] = refl
lookup-summaries name ((key, h) ∷ m) = elim (Bool-cases (str_eq key name)) [
  | inl e ↦ rw e refl
  | inr e ↦ rw e (lookup-summaries name m)
]

summarised-histogram_for : (vs : List ℕ) → summarised (histogram_for vs) ≡ summary_for vs
summarised-histogram_for [] = refl
summarised-histogram_for (v ∷ vs) = refl

-- A collector that starts empty.
abbrev pub empty : MetricsCollector
empty = record { counters = []; histograms = []; told = [] }

-- After any operations on a new collector, the snapshot shows for each name the total counted since the
-- last reset, and the count, sum, minimum, maximum and average of the values recorded since then;
-- a name that was not used since is absent.
pub snapshot-perform_all :
    (name : String) (os : List Op)
    → (lookup name (snapshot (perform_all os empty)).0 ≡ counted name os none)
      × (lookup name (snapshot (perform_all os empty)).1 ≡ summary_for (recorded name os []))
unfolding snapshot
snapshot-perform_all name os =
    let k =
      perform_all-Knows name os none [] empty
        (unfold lookup in record { counter = refl; histogram = refl }) in
    (
      k.counter,
      lookup-summaries name (perform_all os empty).histograms
          ∙ ap summarised k.histogram
          ∙ summarised-histogram_for (recorded name os []),
    )
