-- ===== src/App/Streams/Tests.antt =====
-- The theorems about the streams and the pool at concrete inputs.
use text.Mathlib.TextEquality.{eq_iff}
use bgp_flowspec_receiver.Prelude.{
  ℕ, ◌≡◌, refl, arith, inl, String, none, some, List, [], ◌∷◌, str_eq, ◌==◌, if◌then◌else◌,
}
use bgp_flowspec_receiver.Rib.{Route}
use bgp_flowspec_receiver.View.Page.{Page}
use bgp_flowspec_receiver.App.Streams.{export}
use bgp_flowspec_receiver.App.Streams.Export.{Answer, export-Answer}
use bgp_flowspec_receiver.App.Pool.{Arc, ArcSet, Pool, intern, intern_str}
use bgp_flowspec_receiver.App.Pool.Memory.{Held, reclaim_memory}
use bgp_flowspec_receiver.App.Pool.Memory.Reclaimed.{
  Reached, starts, interns_text, moves, no_pool, no_handles, Exact, reclaim_memory-Exact,
}
use bgp_flowspec_receiver.App.Pool.Shared.{Use, interns, collects, uses, InUse, intern-shared}

abbrev to_json : Route → String
to_json r = r.id

abbrev row : Route
row = record {
  id = "a";
  family = "unicast";
  afi = "ipv4-unicast";
  peer = "192.0.2.1";
  received_at = "12:00";
  prefix = some "10.0.0.0/8";
  next_hop = none;
  as_path = [];
  communities = [];
  match_rule = none;
  actions = [];
}

abbrev any : Page
any = record { family = some "unicast"; page = none; page_size = none; sort = none; order = none }

-- The deadline passes behind the second of the four chunks.
export-Answer_example :
    Answer to_json any
      (row ∷ row ∷ [])
      (record { permits = 1; running = 1 })
      (export to_json any (some 2) (row ∷ row ∷ []) (record { permits = 1; running = 1 }))
export-Answer_example =
    export-Answer to_json any (some 2) (row ∷ row ∷ []) (record { permits = 1; running = 1 }) refl

abbrev fresh : ArcSet String
fresh = record { entries = []; next = 0 }

-- The allocation of the first text is in use, the other is not.
abbrev counts : Arc String → ℕ
counts a = if a.address == 0 then 2 else 1

abbrev pool_uses : List (Use String)
pool_uses = interns "ipv6-unicast" ∷ collects counts ∷ []

fresh-InUse : InUse str_eq eq_iff (intern str_eq "ipv4-unicast" fresh).0 pool_uses
unfolding intern
fresh-InUse = (omega arith, tt)

intern-shared_example :
    ((intern str_eq "ipv4-unicast" fresh).0.value ≡ "ipv4-unicast")
    × ((intern str_eq "ipv4-unicast"
          (uses str_eq eq_iff pool_uses (intern str_eq "ipv4-unicast" fresh).1)).0
        ≡ (intern str_eq "ipv4-unicast" fresh).0)
intern-shared_example = intern-shared str_eq eq_iff "ipv4-unicast" pool_uses fresh fresh-InUse

-- Two texts are interned, and the handle of the first is dropped.
abbrev two_texts : Pool
two_texts = (intern_str "ipv6-unicast" (intern_str "ipv4-unicast" no_pool).1).1

abbrev one_handle : Held
one_handle = record no_handles { strings = record { address = 1; value = "ipv6-unicast" } ∷ [] }

one_handle-Reached : Reached two_texts one_handle
unfolding intern_str
one_handle-Reached =
    moves one_handle (interns_text "ipv6-unicast" (interns_text "ipv4-unicast" starts)) tt tt
      (inl refl, tt)

reclaim_memory-Exact_example :
    let after = reclaim_memory one_handle two_texts in
    Exact two_texts.as_path one_handle.as_path after.as_path
    × Exact two_texts.communities one_handle.communities after.communities
    × Exact two_texts.strings one_handle.strings after.strings
reclaim_memory-Exact_example = reclaim_memory-Exact one_handle-Reached

one_text :
    (reclaim_memory one_handle two_texts).strings.entries
    ≡ record { address = 1; value = "ipv6-unicast" } ∷ []
unfolding reclaim_memory intern_str
one_text = refl
