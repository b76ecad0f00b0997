-- ===== src/App/Tests.antt =====
-- The theorems about the file at a disk that is full.
use bgp_flowspec_receiver.Prelude.{
  ℕ, refl, true, String, some, [], ◌∷◌, ◌==◌, format, if◌then◌else◌,
}
use bgp_flowspec_receiver.Rib.{Route, empty}
use bgp_flowspec_receiver.App.Flush.{Disk, Outcome, done, failed, flush}
use bgp_flowspec_receiver.App.Flush.Atomic.{Saved, flush-Saved}

abbrev to_json : Route → String
to_json r = format ("{\"id\":\"" ∷ r.id ∷ "\"}" ∷ [])

-- The third call fails and writes nothing.
abbrev full : ℕ → Outcome
full i = if i == 2 then failed 0 else done

abbrev old : Disk
old = ("routes.json", "{}") ∷ []

flush-Saved_example :
    Saved to_json "routes.json" empty old (flush to_json true (some "routes.json") full 0 empty old)
flush-Saved_example = flush-Saved to_json true "routes.json" full 0 empty old refl
