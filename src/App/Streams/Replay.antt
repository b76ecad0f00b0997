-- ===== src/App/Streams/Replay.antt =====
-- `events` on a history whose events are JSON objects: texts that end in a brace.
use bgp_flowspec_receiver.Prelude.{
  ℕ, ◌≡◌, refl, ap, ◌∙◌, some, List, [], ◌∷◌, ◌++◌, map, take, length, length-append, arith,
}
use bgp_flowspec_receiver.App.Streams.{replayed, replay, replay_all, Received, live, events}

-- All but the last byte.
take-last : (bytes : List ℕ) (b : ℕ) → take (length bytes) (bytes ++ b ∷ []) ≡ bytes
take-last [] b = refl
take-last (c ∷ bytes) b = ap (λ bs. c ∷ bs) (take-last bytes b)

replay-object : (bytes : List ℕ) → replay (bytes ++ b'}' ∷ []) ≡ some (bytes ++ replayed)
unfolding replay
replay-object [] = refl
replay-object (c ∷ bytes) =
    let longer : length (bytes ++ b'}' ∷ []) ≡ length (c ∷ bytes) =
      omega (arith, length-append bytes (b'}' ∷ [])) in
    ap (λ n. some (take n (c ∷ (bytes ++ b'}' ∷ [])) ++ replayed)) longer
    ∙ ap (λ bs. some (bs ++ replayed)) (take-last (c ∷ bytes) b'}')

replay_all-objects :
    (bodies : List (List ℕ))
    → replay_all (map (λ bytes. bytes ++ b'}' ∷ []) bodies)
      ≡ some (map (λ bytes. bytes ++ replayed) bodies)
unfolding replay_all
replay_all-objects [] = refl
replay_all-objects (bytes ∷ bodies) =
    rw (replay_all, replay-object bytes, replay_all-objects bodies) refl

-- With a history of JSON objects, `events` never panics: it yields the snapshot, then each event of the
-- history in order with `"replayed":true` as its last member, then the live ones.
pub events-objects :
    (snapshot : List ℕ) (bodies : List (List ℕ)) (received : List Received)
    → events snapshot (map (λ bytes. bytes ++ b'}' ∷ []) bodies) received
      ≡ some (snapshot ∷ (map (λ bytes. bytes ++ replayed) bodies ++ live received))
unfolding events
events-objects snapshot bodies received = rw (events, replay_all-objects bodies) refl
