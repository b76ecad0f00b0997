-- ===== src/App/Machine/Touched.antt =====
-- `emit`, `set_state` and `save` of a program: what they change, and that they do not panic.
use mathlib.Core.Path.{subst}
use bgp_flowspec_receiver.Prelude.{
  ℕ, ◌≡◌, ◌⊎◌, inl, inr, refl, sym, ap, ◌∙◌, Bool, true, false, not, ◌&&◌, String, Option, none,
  some, List, ◌∷◌, [], ◌++◌, Bool-cases,
}
use bgp_flowspec_receiver.Rib.{Route, Data}
use bgp_flowspec_receiver.Rib.Rows.{rows}
use bgp_flowspec_receiver.Rib.Apply.{Identity}
use bgp_flowspec_receiver.Rib.Reachable.{Reachable, saved}
use bgp_flowspec_receiver.History.{History}
use bgp_flowspec_receiver.History.Bounds.{Bounded, emit-Bounded}
use bgp_flowspec_receiver.App.Flush.{Disk, Flushed, finish, flush, execute, rests, saving}
use bgp_flowspec_receiver.App.State.{App, Io, Note, emit, set_state, save, report, flushed, failure}

-- A program of which only the events, the files and the dirty mark of the table have changed.
pub record Touched (app : App) (r : Option App) : Type 0 where
  pub history : History
  pub sent : List (List ℕ)
  pub rib : Data
  pub disk : Disk
  pub is : r ≡ some (record app { history = history; sent = sent; rib = rib; disk = disk })
  pub bounded : Bounded history
  pub same : (rib ≡ app.rib) ⊎ (rib ≡ record app.rib { dirty = none })

pub same-Reachable :
    {digest : String → String → String → Identity → String} (d rib : Data)
    → Reachable digest d
    → (rib ≡ d) ⊎ (rib ≡ record d { dirty = none })
    → Reachable digest rib
same-Reachable {digest} d rib r (inl e) = subst (Reachable digest) (sym e) r
same-Reachable {digest} d rib r (inr e) = subst (Reachable digest) (sym e) (saved d r)

pub same-routes :
    (d rib : Data) → (rib ≡ d) ⊎ (rib ≡ record d { dirty = none }) → rib.routes ≡ d.routes
same-routes d rib (inl e) = ap (λ (d : Data). d.routes) e
same-routes d rib (inr e) = ap (λ (d : Data). d.routes) e

same-same :
    (d d' d'' : Data)
    → (d' ≡ d) ⊎ (d' ≡ record d { dirty = none })
    → (d'' ≡ d') ⊎ (d'' ≡ record d' { dirty = none })
    → (d'' ≡ d) ⊎ (d'' ≡ record d { dirty = none })
same-same d d' d'' (inl e) (inl e') = inl (e' ∙ e)
same-same d d' d'' (inr e) (inl e') = inr (e' ∙ e)
same-same d d' d'' (inl e) (inr e') = inr (e' ∙ ap (λ (d : Data). record d { dirty = none }) e)
same-same d d' d'' (inr e) (inr e') = inr (e' ∙ ap (λ (d : Data). record d { dirty = none }) e)

finish-same :
    (d : Data) (r : Disk × Bool)
    → ((finish d r).rib ≡ d) ⊎ ((finish d r).rib ≡ record d { dirty = none })
finish-same d (disk, true) = inr refl
finish-same d (disk, false) = inl refl

-- `flush` resets the dirty mark or leaves the table as it is.
pub flush-same :
    (to_json : Route → String) (force : Bool) (output : Option String) (io : Io) (d : Data)
    (disk : Disk)
    → let r = flush to_json force output io.outcome io.now d disk in
      (r.rib ≡ d) ⊎ (r.rib ≡ record d { dirty = none })
unfolding flush
flush-same to_json force none io d disk = elim (Bool-cases (not force && rests io.now d.dirty)) [
  | inl e ↦ rw e (inl refl)
  | inr e ↦ rw e (inl refl)
]
flush-same to_json force (some path) io d disk =
    elim (Bool-cases (not force && rests io.now d.dirty)) [
      | inl e ↦ rw e (inl refl)
      | inr e ↦
          rw e (finish-same d (execute io.outcome 0 (saving to_json path (rows d.routes)) disk))
    ]

module _ (text_of : ℕ → Note → List ℕ) where
  pub emit-Touched :
      (now : ℕ) (note : Note) (app : App)
      → Bounded app.history
      → Touched app (emit text_of now note app)
  unfolding emit
  emit-Touched now note app b =
      let event = text_of now note in
      let (after, done, bounded, _) = emit-Bounded event app.history b in
      record {
        history = after;
        sent = app.sent ++ event ∷ [];
        rib = app.rib;
        disk = app.disk;
        is = rw done refl;
        bounded = bounded;
        same = inl refl;
      }

  pub set_state-Touched :
      (now : ℕ) (state : String) (app : App)
      → Bounded app.history
      → Touched (record app { state = state }) (set_state text_of now state app)
  unfolding set_state
  set_state-Touched now state app b = emit-Touched now _ (record app { state = state }) b

  module _ (to_json : Route → String) where
    report-flushed :
        (io : Io) (app : App) (r : Flushed) (ok : Bool)
        → Bounded app.history
        → (r.rib ≡ app.rib) ⊎ (r.rib ≡ record app.rib { dirty = none })
        → Touched app (report text_of to_json io ok (flushed text_of to_json r app))
    report-flushed io app r true b s = record {
      history = app.history;
      sent = app.sent;
      rib = r.rib;
      disk = r.disk;
      is = refl;
      bounded = b;
      same = s;
    }
    report-flushed io app r false b s =
        let t = emit-Touched io.now (failure io.reason) (flushed text_of to_json r app) b in
        record {
          history = t.history;
          sent = t.sent;
          rib = t.rib;
          disk = t.disk;
          is = t.is;
          bounded = t.bounded;
          same = same-same app.rib r.rib t.rib s t.same;
        }

    pub save-Touched :
        (force : Bool) (io : Io) (app : App)
        → Bounded app.history
        → Touched app (save text_of to_json force io app)
    unfolding save
    save-Touched force io app b =
        let r = flush to_json force app.output io.outcome io.now app.rib app.disk in
        report-flushed io app r r.ok b (flush-same to_json force app.output io app.rib app.disk)
