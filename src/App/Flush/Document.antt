-- ===== src/App/Flush/Document.antt =====
-- The calls of `saving` beside the JSON document that they write.
use mathlib.Core.List.{append_assoc as list_append_assoc}
use Prim.Native.String.{◌++◌ as append}
use text.Mathlib.TextLemmas.{append_assoc, append-nil, nil-append}
use bgp_flowspec_receiver.App.Flush.Files.{On, after}
use bgp_flowspec_receiver.Prelude.{
  ◌≡◌, refl, sym, ap, ◌∙◌, Bool, true, false, String, List, [], ◌∷◌, ◌++◌, map, length, All,
  All-append, format, join, decimal,
}
use bgp_flowspec_receiver.Rib.{Route}
use bgp_flowspec_receiver.App.Flush.{
  Action, create, write, drain, sync, rename, tmp_path, write_rows, saving,
}

module _ (to_json : Route → String) where
  -- The JSON text of the routes, with their number.
  abbrev pub document : List Route → String
  document routes = format (
      "{\"count\":"
      ∷ decimal (length routes)
      ∷ ",\"routes\":["
      ∷ join "," (map to_json routes)
      ∷ "]}"
      ∷ [])

  abbrev pub tail_text : List Route → String
  tail_text [] = ""
  tail_text (r ∷ rs) = append "," (append (to_json r) (tail_text rs))

  pub join-tail_text :
      (r : Route) (rs : List Route)
      → append (to_json r) (tail_text rs) ≡ join "," (map to_json (r ∷ rs))
  join-tail_text r [] = append-nil (to_json r)
  join-tail_text r (q ∷ rs) = ap (λ t. append (to_json r) (append "," t)) (join-tail_text q rs)

  pub after-later_rows :
      (tmp : String) (rs : List Route) (actions : List Action) (text : String)
      → after (write_rows to_json tmp false rs ++ actions) text
        ≡ after actions (append text (tail_text rs))
  unfolding write_rows
  after-later_rows tmp [] actions text = ap (after actions) (sym (append-nil text))
  after-later_rows tmp (r ∷ rs) actions text =
      after-later_rows tmp rs actions (append (append text ",") (to_json r))
      ∙ ap (after actions) (simp append_assoc)

  pub after-rows :
      (tmp : String) (rs : List Route) (actions : List Action) (text : String)
      → after (write_rows to_json tmp true rs ++ actions) text
        ≡ after actions (append text (join "," (map to_json rs)))
  unfolding write_rows
  after-rows tmp [] actions text = ap (after actions) (sym (append-nil text))
  after-rows tmp (r ∷ rs) actions text =
      after-later_rows tmp rs actions (append text (to_json r))
      ∙ ap (after actions)
          (append_assoc text (to_json r) (tail_text rs) ∙ ap (append text) (join-tail_text r rs))

  pub rows-On :
      (tmp : String) (first : Bool) (rs : List Route)
      → All (On tmp) (write_rows to_json tmp first rs)
  unfolding write_rows
  rows-On tmp first [] = tt
  rows-On tmp true (r ∷ rs) = (refl, rows-On tmp false rs)
  rows-On tmp false (r ∷ rs) = (refl, (refl, rows-On tmp false rs))

  -- The calls before the renaming.
  abbrev pub writing : String → List Route → List Action
  writing tmp routes =
      create tmp
      ∷ write tmp (format ("{\"count\":" ∷ decimal (length routes) ∷ ",\"routes\":[" ∷ []))
      ∷ (write_rows to_json tmp true routes ++ (write tmp "]}" ∷ drain tmp ∷ sync tmp ∷ []))

  pub writing-On : (tmp : String) (routes : List Route) → All (On tmp) (writing tmp routes)
  writing-On tmp routes = (
    refl,
    (
      refl,
      All-append (On tmp) (write_rows to_json tmp true routes)
          (write tmp "]}" ∷ drain tmp ∷ sync tmp ∷ []) (rows-On tmp true routes)
          (refl, (refl, (refl, tt))),
    ),
  )

  pub after-writing :
      (tmp text : String) (routes : List Route) → after (writing tmp routes) text ≡ document routes
  after-writing tmp text routes =
      after-rows tmp routes (write tmp "]}" ∷ drain tmp ∷ sync tmp ∷ [])
        (append "" (format ("{\"count\":" ∷ decimal (length routes) ∷ ",\"routes\":[" ∷ [])))
      ∙ simp (append_assoc, append-nil, nil-append)

  pub saving-writing :
      (path : String) (routes : List Route)
      → saving to_json path routes
        ≡ writing (tmp_path path) routes ++ rename (tmp_path path) path ∷ []
  unfolding saving
  saving-writing path routes =
      let tmp = tmp_path path in
      ap
        (λ actions.
          create tmp
          ∷ write tmp (format ("{\"count\":" ∷ decimal (length routes) ∷ ",\"routes\":[" ∷ []))
          ∷ actions)
        (sym (
          list_append_assoc (write_rows to_json tmp true routes)
            (write tmp "]}" ∷ drain tmp ∷ sync tmp ∷ []) (rename tmp path ∷ [])))
