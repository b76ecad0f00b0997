-- ===== src/App/Machine/Halt.antt =====
-- What `stop` leaves when both tasks have ended, in the program and in the file.
use mathlib.Core.Path.{subst}
use bgp_flowspec_receiver.Prelude.{
  ℕ, ◌≡◌, ◌≢◌, ◌⊎◌, inl, inr, refl, sym, ap, ◌∙◌, Bool, true, false, String, none, some, List, ◌∷◌,
  [], ◌++◌,
}
use bgp_flowspec_receiver.Prelude.Dict
use bgp_flowspec_receiver.Rib.{Route, Data, clear}
use bgp_flowspec_receiver.Rib.Rows.{rows}
use bgp_flowspec_receiver.History.{History, clear_history}
use bgp_flowspec_receiver.History.Bounds.{Bounded}
use bgp_flowspec_receiver.App.Flush.{Flushed, flush, tmp_path}
use bgp_flowspec_receiver.App.Flush.Document.{document}
use bgp_flowspec_receiver.App.Flush.Atomic.{Saved, flush-Saved}
use bgp_flowspec_receiver.App.State.{
  App, Io, Note, emit, save, halt, report, flushed, stopped, failure,
}
use bgp_flowspec_receiver.App.Machine.Kept.{Yields, yields, clear-routes}
use bgp_flowspec_receiver.App.Machine.Handlers.{clear_history-Bounded}
use bgp_flowspec_receiver.History.Bounds.{emit-Bounded}

cleared_rows : (now : ℕ) (d : Data) → rows (clear now d).routes ≡ []
unfolding clear
cleared_rows now d = refl

module _ (text_of : ℕ → Note → List ℕ) (to_json : Route → String) where
  -- A program that is stopped, in which the file at `path` has been saved or an error emitted.
  pub record Halted (io : Io) (path : String) (app after : App) : Type 0 where
    pub running : after.running ≡ false
    pub state : after.state ≡ "IDLE"
    pub peer_info : after.peer_info ≡ none
    pub routes : after.rib.routes ≡ []
    pub file :
        ((Dict.get path after.disk ≡ Dict.get path app.disk)
          × (after.sent
              ≡ (app.sent ++ text_of io.now stopped ∷ [])
                ++ text_of io.now (failure io.reason) ∷ []))
        ⊎ ((Dict.get path after.disk ≡ some (document to_json []))
            × (after.sent ≡ app.sent ++ text_of io.now stopped ∷ []))
    pub others :
        (q : String) → q ≢ tmp_path path → q ≢ path → Dict.get q after.disk ≡ Dict.get q app.disk

  emitted :
      (now : ℕ) (note : Note) (app : App)
      → Bounded app.history
      → (h : History) × (emit text_of now note app
          ≡ some (record app { history = h; sent = app.sent ++ text_of now note ∷ [] }))
        × Bounded h
  unfolding emit
  emitted now note app b =
      let (after, done, bounded, _) = emit-Bounded (text_of now note) app.history b in
      (after, rw done refl, bounded)

  -- Behind the first event, with the history `h`.
  abbrev silent : Io → App → History → App
  silent io app h = record app {
    history = h;
    running = false;
    state = "IDLE";
    peer_info = none;
    rib = clear io.now app.rib;
    sent = app.sent ++ text_of io.now stopped ∷ [];
  }

  reported-Halted :
      (io : Io) (path : String) (app : App) (h : History) (r : Flushed) (ok : Bool)
      → r.ok ≡ ok
      → Bounded h
      → Saved to_json path (clear io.now app.rib) app.disk r
      → Yields
          (Halted io path app)
          (report text_of to_json io ok (flushed text_of to_json r (silent io app h)))
  reported-Halted io path app h r true e b s = elim s.file [
    | inl (old, (bad, same)) ↦ cc
    | inr (new, (good, same)) ↦ yields _ (record {
      running = refl;
      state = refl;
      peer_info = refl;
      routes = ap (λ (d : Data). d.routes) same ∙ clear-routes io.now app.rib;
      file =
          inr (
            new ∙ ap (λ routes. some (document to_json routes)) (cleared_rows io.now app.rib),
            refl,
          );
      others = s.others;
    })
  ]
  reported-Halted io path app h r false e b s = elim s.file [
    | inr (new, (good, same)) ↦ cc
    | inl (old, (bad, same)) ↦
        let app' = flushed text_of to_json r (silent io app h) in
        let (h', done, b') = emitted io.now (failure io.reason) app' b in
        subst (Yields (Halted io path app)) (sym done) (
          yields _ (record {
            running = refl;
            state = refl;
            peer_info = refl;
            routes = ap (λ (d : Data). d.routes) same ∙ clear-routes io.now app.rib;
            file = inl (old, refl);
            others = s.others;
          }))
  ]

  saved-Halted :
      (io : Io) (path : String) (app : App) (h : History)
      → app.output ≡ some path
      → Bounded h
      → Yields (Halted io path app) (save text_of to_json true io (silent io app h))
  unfolding save
  saved-Halted io path app h o b =
      let before = silent io app h in
      let r = flush to_json true app.output io.outcome io.now before.rib app.disk in
      reported-Halted io path app h r r.ok refl b (
        subst
          (λ output.
            Saved to_json path before.rib app.disk
              (flush to_json true output io.outcome io.now before.rib app.disk))
          (sym o) (flush-Saved to_json true path io.outcome io.now before.rib app.disk refl))

  -- `stop` behind the waits, with a file to save to, does not panic, whatever the calls on the files do: the
  -- program then runs no session, its state is IDLE, and its table and the peer's data are empty.
  -- Either the file holds the document of no routes and the only new event is that of the stop, or
  -- the file is the old one and the error has been emitted as well. Only that file and its
  -- temporary one have changed.
  pub halt-Halted :
      (io : Io) (path : String) (app : App)
      → app.output ≡ some path
      → Yields (Halted io path app) (halt text_of to_json io app)
  unfolding halt
  halt-Halted io path app o =
      let app' : App = record app {
        history = clear_history app.history;
        running = false;
        state = "IDLE";
        peer_info = none;
        rib = clear io.now app.rib;
      } in
      let (h, done, b) = emitted io.now stopped app' (clear_history-Bounded app.history) in
      rw done (saved-Halted io path app h o b)
