-- ===== src/App/Streams/Export.antt =====
-- The answer of `export` beside the JSON document of the rows.
use Prim.Native.String.{◌++◌ as append}
use text.Mathlib.TextLemmas.{append_assoc, append-nil, nil-append}
use bgp_flowspec_receiver.Prelude.{
  ℕ, zero, suc, ◌+◌, ◌≡◌, ◌⊎◌, inl, inr, refl, sym, ap, ◌∙◌, true, false, String, Option, none,
  some, List, [], ◌∷◌, ◌++◌, map, take, length, ltb, format, join, Bool-cases, arith,
}
use bgp_flowspec_receiver.Wire.Result.{Result, ok, err, fault, Settles, returns, refuses}
use bgp_flowspec_receiver.Rib.{Route}
use bgp_flowspec_receiver.View.Page.{Page, family, of_family, or_default, is_one_of}
use bgp_flowspec_receiver.App.Flush.Document.{tail_text, join-tail_text}
use bgp_flowspec_receiver.App.Streams.{
  Item, chunk, Response, refused, body, Exports, row_chunks, chunks, timed_out, export_body, export,
  end_export,
}

module _ (to_json : Route → String) where
  -- The JSON document of the rows.
  abbrev pub document : List Route → String
  document rows = append "{\"routes\":[" (append (join "," (map to_json rows)) "]}")

  -- A body that is whole, or ends in an error.
  pub record Delivered (rows : List Route) (items : List Item) : Type 0 where
    pub sent : List String
    pub outcome :
        ((items ≡ map chunk sent) × (format sent ≡ document rows))
        ⊎ (items ≡ map chunk sent ++ timed_out to_json ∷ [])

  format-later :
      (rows : List Route) (more : List String)
      → format (row_chunks to_json false rows ++ more)
        ≡ append (tail_text to_json rows) (format more)
  unfolding row_chunks
  format-later [] more = sym (nil-append (format more))
  format-later (r ∷ rows) more =
      ap (append (append "," (append (to_json r) ""))) (format-later rows more)
      ∙ simp (append_assoc, nil-append)

  format-rows :
      (rows : List Route) (more : List String)
      → format (row_chunks to_json true rows ++ more)
        ≡ append (join "," (map to_json rows)) (format more)
  unfolding row_chunks
  format-rows [] more = sym (nil-append (format more))
  format-rows (r ∷ rows) more =
      let json = to_json r in
      let tail = tail_text to_json rows in
      let joined : append (append "" (append json "")) (append tail (format more))
          ≡ append (append json tail) (format more) =
        simp (append_assoc, nil-append) in
      ap (append (append "" (append json ""))) (format-later rows more)
      ∙ joined
      ∙ ap (λ t. append t (format more)) (join-tail_text to_json r rows)

  format-chunks : (rows : List Route) → format (chunks to_json rows) ≡ document rows
  unfolding chunks
  format-chunks rows =
      ap (append "{\"routes\":[")
        (format-rows rows ("]}" ∷ []) ∙ ap (append (join "," (map to_json rows))) (append-nil "]}"))

  export_body-Delivered :
      (deadline : Option ℕ) (rows : List Route) → Delivered rows (export_body to_json deadline rows)
  unfolding export_body
  export_body-Delivered none rows = record {
    sent = chunks to_json rows;
    outcome = inl (refl, format-chunks rows);
  }
  export_body-Delivered (some n) rows = elim (Bool-cases (ltb n (length (chunks to_json rows)))) [
    | inl e ↦ rw e (record { sent = take n (chunks to_json rows); outcome = inr refl })
    | inr e ↦ rw e (record { sent = chunks to_json rows; outcome = inl (refl, format-chunks rows) })
  ]

  -- The answer to a request, with two permits in all.
  pub data Answer (q : Page) (rows : List Route) (e : Exports) : Exports × Response → Type 0 where
    invalid : (m : String) → family q ≡ err m → Answer q rows e (e, refused 400 m)
    busy : e.running ≡ 2 → Answer q rows e (e, refused 429 "Two exports are already running")
    given :
        (f : String) (permits : ℕ) (items : List Item)
        → family q ≡ ok f
        → permits + suc e.running ≡ 2
        → Delivered (of_family f rows) items
        → Answer q rows e (record { permits = permits; running = suc e.running }, body items)

  family-Settles : (q : Page) → Settles (family q)
  unfolding family
  family-Settles q =
      let f = or_default "total" q.family in
      elim (Bool-cases (is_one_of f ("total" ∷ "unicast" ∷ "flowspec" ∷ []))) [
        | inl e ↦ rw e (returns f tt)
        | inr e ↦ rw e (refuses "invalid family")
      ]

  granted :
      (q : Page) (f : String) (deadline : Option ℕ) (rows : List Route) (e : Exports) (permits : ℕ)
      → family q ≡ ok f
      → e.permits ≡ permits
      → e.permits + e.running ≡ 2
      → Answer q rows e (elim permits [
        | zero ↦ (e, refused 429 "Two exports are already running")
        | suc n ↦ (
          record { permits = n; running = suc e.running },
          body (export_body to_json deadline (of_family f rows)),
        )
      ])
  granted q f deadline rows e zero k p two = busy (omega arith)
  granted q f deadline rows e (suc n) k p two =
      given f n (export_body to_json deadline (of_family f rows)) k (omega arith)
        (export_body-Delivered deadline (of_family f rows))

  answered :
      (q : Page) (deadline : Option ℕ) (rows : List Route) (e : Exports) (r : Result String String)
      → family q ≡ r
      → Settles r
      → e.permits + e.running ≡ 2
      → Answer q rows e (elim r [
        | err m ↦ (e, refused 400 m)
        | fault f ↦ (e, refused 500 "")
        | ok f ↦ elim e.permits [
          | zero ↦ (e, refused 429 "Two exports are already running")
          | suc n ↦ (
            record { permits = n; running = suc e.running },
            body (export_body to_json deadline (of_family f rows)),
          )
        ]
      ])
  answered q deadline rows e _ k (returns f _) two =
      granted q f deadline rows e e.permits k refl two
  answered q deadline rows e _ k (refuses m) two = invalid m k

  -- While at most two exports run, a request for an export of an invalid family is refused with 400, one
  -- beside two running exports with 429, and any other takes a permit and gets a body for the rows
  -- of its family: this body is the whole JSON document of these rows in order, or its last item is
  -- the error of the deadline, so that no client takes a cut document for a whole one.
  pub export-Answer :
      (q : Page) (deadline : Option ℕ) (rows : List Route) (e : Exports)
      → e.permits + e.running ≡ 2
      → Answer q rows e (export to_json q deadline rows e)
  unfolding export
  export-Answer q deadline rows e two =
      answered q deadline rows e (family q) refl (family-Settles q) two

-- The permits and the running exports are still two.
abbrev Two : Exports → Type 0
Two e = e.permits + e.running ≡ 2

ended-Two :
    (e : Exports) (running : ℕ)
    → e.running ≡ running
    → Two e
    → Two (elim running [ zero ↦ e | suc n ↦ record { permits = suc e.permits; running = n } ])
ended-Two e zero k two = two
ended-Two e (suc n) k two = omega arith

end_export-Two : (e : Exports) → Two e → Two (end_export e)
unfolding end_export
end_export-Two e two = ended-Two e e.running refl two
