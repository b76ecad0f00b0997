-- ===== src/App/Flush/Atomic.antt =====
-- `flush` beside the file that it is to leave, for every way in which its calls may fail.
use mathlib.Core.Path.{subst}
use Prim.Native.String.{count}
use text.Mathlib.TextLemmas.{length-append}
use text.Mathlib.TextEquality.{eq_iff}
use bgp_flowspec_receiver.Prelude.{
  ℕ, suc, ◌+◌, ◌≡◌, ◌≢◌, ◌⊎◌, inl, inr, refl, sym, ap, ◌∙◌, Bool, true, false, String, Option, none,
  some, List, [], ◌∷◌, ◌++◌, All, arith, not, ◌&&◌,
}
use bgp_flowspec_receiver.Prelude.Dict
use bgp_flowspec_receiver.Prelude.Dict.{get-insert, get-remove}
use bgp_flowspec_receiver.Rib.{Route, Data}
use bgp_flowspec_receiver.Rib.Rows.{rows}
use bgp_flowspec_receiver.App.Flush.{
  Disk, Action, rename, Outcome, contents, perform, spoil, execute, rests, tmp_path, saving,
  Flushed, flush, finish,
}
use bgp_flowspec_receiver.App.Flush.Files.{
  On, after, get-perform, get-spoil, after-perform, get-rename, Outcome-cases, execute-done,
  execute-failed, spoil-rename,
}
use bgp_flowspec_receiver.App.Flush.Document.{
  document, writing, writing-On, after-writing, saving-writing,
}

module _ (outcome : ℕ → Outcome) (tmp path : String) (apart : path ≢ tmp) where
  -- The file is the old one and the calls have failed, or it is the new one and they have not; and the
  -- files beside it and `tmp` are what they were.
  pub record Whole (text : String) (disk : Disk) (r : Disk × Bool) : Type 0 where
    pub file :
        ((Dict.get path r.0 ≡ Dict.get path disk) × (r.1 ≡ false))
        ⊎ ((Dict.get path r.0 ≡ some text) × (r.1 ≡ true))
    pub others : (q : String) → q ≢ tmp → q ≢ path → Dict.get q r.0 ≡ Dict.get q disk

  failed-Whole :
      (text : String) (n : ℕ) (a : Action) (disk : Disk)
      → ((q : String) → q ≢ tmp → Dict.get q (spoil n a disk) ≡ Dict.get q disk)
      → Whole text disk (spoil n a disk, false)
  failed-Whole text n a disk same = record {
    file = inl (same path apart, refl);
    others = λ q ne ne'. same q ne;
  }

  renamed-Whole :
      (disk : Disk) → Whole (contents tmp disk) disk (perform (rename tmp path) disk, true)
  renamed-Whole disk = record {
    file = inr (get-rename tmp path path disk apart ∙ ground (arith, eq_iff path path), refl);
    others =
        λ q ne ne'. get-rename tmp path q disk ne ∙ ground (arith, eq_iff path q, eq_iff q path);
  }

  earlier-Whole :
      (text : String) (disk disk' : Disk) (r : Disk × Bool)
      → ((q : String) → q ≢ tmp → Dict.get q disk' ≡ Dict.get q disk)
      → Whole text disk' r
      → Whole text disk r
  earlier-Whole text disk disk' r same w = record {
    file = elim w.file [
      | inl (old, bad) ↦ inl (old ∙ same path apart, bad)
      | inr (new, good) ↦ inr (new, good)
    ];
    others = λ q ne ne'. w.others q ne ne' ∙ same q ne;
  }

  execute_nil : (i : ℕ) (disk : Disk) → execute outcome i [] disk ≡ (disk, true)
  unfolding execute
  execute_nil i disk = refl

  execute-Whole :
      (i : ℕ) (actions : List Action) (disk : Disk)
      → All (On tmp) actions
      → Whole
          (after actions (contents tmp disk))
          disk
          (execute outcome i (actions ++ rename tmp path ∷ []) disk)
  execute-Whole i [] disk on = elim (Outcome-cases (outcome i)) [
    | inl e ↦
        subst (Whole (contents tmp disk) disk)
          (sym (execute_nil (suc i) (perform (rename tmp path) disk))
            ∙ execute-done outcome i (rename tmp path) [] disk e)
          (renamed-Whole disk)
    | inr (n, e) ↦
        subst (Whole (contents tmp disk) disk)
          (execute-failed outcome i n (rename tmp path) [] disk e)
          (failed-Whole (contents tmp disk) n (rename tmp path) disk (spoil-rename tmp path n disk))
  ]
  execute-Whole i (a ∷ actions) disk on =
      let text = after (a ∷ actions) (contents tmp disk) in
      let rest = actions ++ rename tmp path ∷ [] in
      elim (Outcome-cases (outcome i)) [
        | inl e ↦ subst (Whole text disk) (execute-done outcome i a rest disk e) (
            earlier-Whole text disk (perform a disk) (execute outcome (suc i) rest (perform a disk))
              (λ q ne. get-perform tmp q a disk on.0 ne)
              (subst (λ t. Whole t (perform a disk) (execute outcome (suc i) rest (perform a disk)))
                (after-perform tmp a actions disk on.0)
                (execute-Whole (suc i) actions (perform a disk) on.1)))
        | inr (n, e) ↦
            subst (Whole text disk) (execute-failed outcome i n a rest disk e)
              (failed-Whole text n a disk (λ q ne. get-spoil tmp q n a disk on.0 ne))
      ]

tmp_path-ne : (path : String) → path ≢ tmp_path path
tmp_path-ne path e =
    let longer : count path ≡ count path + 4 = ap count e ∙ length-append path ".tmp" in omega arith

module _ (to_json : Route → String) where
  saving-Whole :
      (outcome : ℕ → Outcome) (path : String) (routes : List Route) (disk : Disk)
      → Whole outcome
          (tmp_path path)
          path
          (tmp_path-ne path)
          (document to_json routes)
          disk
          (execute outcome 0 (saving to_json path routes) disk)
  saving-Whole outcome path routes disk =
      let tmp = tmp_path path in
      let apart = tmp_path-ne path in
      subst
        (λ text.
          Whole outcome tmp path apart text disk
            (execute outcome 0 (saving to_json path routes) disk))
        (after-writing to_json tmp (contents tmp disk) routes)
        (subst
          (λ actions.
            Whole outcome tmp path apart (after (writing to_json tmp routes) (contents tmp disk))
              disk (execute outcome 0 actions disk))
          (sym (saving-writing to_json path routes))
          (execute-Whole outcome tmp path apart 0 (writing to_json tmp routes) disk
            (writing-On to_json tmp routes)))

  -- What `flush` leaves when it does not rest and has a path.
  pub record Saved (path : String) (d : Data) (disk : Disk) (r : Flushed) : Type 0 where
    pub file :
        ((Dict.get path r.disk ≡ Dict.get path disk) × ((r.ok ≡ false) × (r.rib ≡ d)))
        ⊎ ((Dict.get path r.disk ≡ some (document to_json (rows d.routes)))
            × ((r.ok ≡ true) × (r.rib ≡ record d { dirty = none })))
    pub others : (q : String) → q ≢ tmp_path path → q ≢ path → Dict.get q r.disk ≡ Dict.get q disk

  finish-Saved :
      (outcome : ℕ → Outcome) (path : String) (d : Data) (disk : Disk) (r : Disk × Bool)
      → Whole outcome
          (tmp_path path)
          path
          (tmp_path-ne path)
          (document to_json (rows d.routes))
          disk
          r
      → Saved path d disk (finish d r)
  finish-Saved outcome path d disk (disk', true) w = record {
    file = elim w.file [
      | inl (old, bad) ↦ ground arith
      | inr (new, good) ↦ inr (new, (refl, refl))
    ];
    others = w.others;
  }
  finish-Saved outcome path d disk (disk', false) w = record {
    file = elim w.file [
      | inl (old, bad) ↦ inl (old, (refl, refl))
      | inr (new, good) ↦ ground arith
    ];
    others = w.others;
  }

  flush-resting :
      (output : Option String) (outcome : ℕ → Outcome) (now : ℕ) (d : Data) (disk : Disk)
      → rests now d.dirty ≡ true
      → flush to_json false output outcome now d disk ≡ record { disk = disk; rib = d; ok = true }
  unfolding flush
  flush-resting output outcome now d disk e = rw e refl

  -- When `flush` is forced, or the table has a dirty mark that was set at least five seconds ago, then for
  -- every way in which its calls on files may fail, half-written texts included, either it returns an
  -- error, the file at `path` is the one from before and the dirty mark stays; or it returns `Ok`, the file
  -- is the whole document of the routes and the dirty mark is reset. Only the temporary file may have
  -- changed besides.
  pub flush-Saved :
      (force : Bool) (path : String) (outcome : ℕ → Outcome) (now : ℕ) (d : Data) (disk : Disk)
      → not force && rests now d.dirty ≡ false
      → Saved path d disk (flush to_json force (some path) outcome now d disk)
  unfolding flush
  flush-Saved force path outcome now d disk due = rw due (
      finish-Saved outcome path d disk
        (execute outcome 0 (saving to_json path (rows d.routes)) disk)
        (saving-Whole outcome path (rows d.routes) disk))
