-- ===== src/Rib/Removal.antt =====
-- `remove` on data that satisfies the invariant.
use bgp_flowspec_receiver.Prelude.{
  ℕ, ◌≡◌, refl, sym, ◌∙◌, Bool, true, false, List, Option, none, some, String, arith, inl, inr,
  Option-cases,
}
use bgp_flowspec_receiver.Prelude.Dict
use bgp_flowspec_receiver.Prelude.Dict.{Dict, get-insert, get-remove}
use bgp_flowspec_receiver.Prelude.SeqMap
use bgp_flowspec_receiver.Prelude.SeqMap.{SeqMap}
use bgp_flowspec_receiver.Rib.{Route, Data, metrics, count_keys, count, taken, remove_at, remove}
use bgp_flowspec_receiver.Rib.Tally.{count_all-subtract, analyse_all-subtract}
use bgp_flowspec_receiver.Rib.Rows.{
  rows, drop_id, has_id, seq_of, has_id-seq_of, drop_id-absent, seq_of-Found, has_id-seq_of-some,
  Bounded-remove, Distinct-remove,
}
use bgp_flowspec_receiver.Rib.Invariant.{Inv, in_counts, in_metrics, metrics-AllHave, count-eq}

remove_at-eq :
    (seq : ℕ) (id : String) (now : ℕ) (d : Data) (r : Route) (counts : Dict ℕ)
    (analytics : Dict (Dict ℕ))
    → SeqMap.get seq d.routes ≡ some r
    → count r false (taken seq id d)
      ≡ some (record (taken seq id d) { counts = counts; analytics = analytics })
    → remove_at seq id now d
      ≡ some (record (taken seq id d) { counts = counts; analytics = analytics; dirty = some now })
unfolding remove_at
remove_at-eq seq id now d r counts analytics found counting = rw (found, counting) refl

remove-none :
    (id : String) (now : ℕ) (d : Data)
    → Dict.get id d.ids ≡ none
    → remove id now d ≡ some (d, false)
unfolding remove
remove-none id now d e = rw (e, remove) refl

remove-some :
    (id : String) (now seq : ℕ) (d after : Data)
    → Dict.get id d.ids ≡ some seq
    → remove_at seq id now d ≡ some after
    → remove id now d ≡ some (after, true)
unfolding remove
remove-some id now seq d after e done = rw (remove, e, done) refl

-- `remove` takes the rows of the id out and says whether there was one; it never panics.
abbrev pub Removes : Option (Data × Bool) → List Route → Bool → Type 0
Removes o rs found = (d : Data) × (o ≡ some (d, found)) × Inv d × (rows d.routes ≡ rs)

pub remove-Removes :
    (id : String) (now : ℕ) (d : Data)
    → Inv d
    → Removes (remove id now d) (drop_id id (rows d.routes)) (has_id id (rows d.routes))
remove-Removes id now d v = elim (Option-cases (seq_of id d.routes)) [
  | inl none_there ↦
      let no_entry = v.indexed id ∙ none_there in
      (
        d,
        rw (has_id-seq_of id d.routes none_there) (remove-none id now d no_entry),
        v,
        sym (drop_id-absent id d.routes none_there),
      )
  | inr (seq, there) ↦
      let (r, found, same, rest, sum, seqs) = seq_of-Found id seq d.routes v.distinct there in
      let small : Data = taken seq id d in
      let (counts, ec, hc) =
        count_all-subtract (count_keys r) d.counts
          (λ k. omega (arith, v.counted k, sum (in_counts k))) in
      let (analytics, ea, ha, has) =
        analyse_all-subtract (metrics r) d.analytics (metrics-AllHave d.analytics r v.tables)
          (λ c w. omega (arith, v.analysed c w, sum (in_metrics c w))) in
      let after : Data = record small {
        counts = counts;
        analytics = analytics;
        dirty = some now;
      } in
      let done : remove_at seq id now d ≡ some after =
        remove_at-eq seq id now d r counts analytics found
          (count-eq r false small counts analytics ec ea) in
      (
        after,
        rw (has_id-seq_of-some id seq d.routes there)
            (remove-some id now seq d after (v.indexed id ∙ there) done),
        record {
          bounded = Bounded-remove seq d.sequence d.routes v.bounded;
          distinct = Distinct-remove seq d.routes v.distinct;
          indexed = λ j. ground (arith, get-remove id j d.ids, seqs j, v.indexed j);
          counted = λ k. omega (arith, hc k, v.counted k, sum (in_counts k));
          analysed = λ c w. omega (arith, ha c w, v.analysed c w, sum (in_metrics c w));
          tables = λ c k. has c (v.tables c k);
        },
        rest,
      )
]
