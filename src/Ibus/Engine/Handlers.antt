-- ===== src/Ibus/Engine/Handlers.antt =====
-- Each handler of crates/shinran_ibus/src/engine.rs does what the editor does.
use shinran.Prelude.{
  ℕ, Text, Bool, true, false, Option, none, some, List, [], ◌∷◌, ◌≡◌, refl, sym, ap, ◌∙◌, subst,
  arith, length, if◌then◌else◌, Answer, answer,
}
use shinran.Ibus.Engine.{
  Host, Signal, ShinranEngine, completed, failed, send, exit, edit, expand, commit, is_empty,
  update_text, clear_text, press_return, commit_text, send_candidates,
}
use shinran.Ibus.Engine.Editor.{
  Editor, rev_onto, IsAscii, with_text, Represents, Ends, Ends-then_do, Represents-sent,
}
use shinran.Ibus.Engine.Positions.{length-rev_onto}

module _ {E : Type 0} (host : Host E)
    (answers : (s : Text) → (output : Option Text) × (host.check_trigger s ≡ answer output)) where
  pub send-Represents :
      (signal : Signal) (d : Editor) (e : ShinranEngine)
      → Represents d e
      → Ends (Represents d) (send host signal e)
  send-Represents signal d e r = go (host.sends signal)
    where
      go :
          (b : Bool)
          → Ends
              (Represents d)
              (if b then completed (record e { signals = signal ∷ e.signals }) else failed e)
      go true = Represents-sent signal d e r
      go false = r

  pub send_candidates-Represents :
      (candidates : List (Text × ℕ)) (d : Editor) (e : ShinranEngine)
      → Represents d e
      → Ends (Represents d) (send_candidates host candidates e)
  send_candidates-Represents [] d e r = r
  send_candidates-Represents (candidate ∷ rest) d e r = send-Represents _ d e r

  pub update_text-Represents :
      (d : Editor) (e : ShinranEngine) → Represents d e → Ends (Represents d) (update_text host e)
  unfolding update_text
  update_text-Represents d e r =
      Ends-then_do _ _ (send-Represents _ d e r)
        (send_candidates-Represents (host.fuzzy_match e.text) d)

  pub clear_text-Represents :
      (d : Editor) (e : ShinranEngine)
      → Represents d e
      → Ends (Represents (with_text [] [] d)) (clear_text host e)
  unfolding clear_text
  clear_text-Represents d e r =
      update_text-Represents (with_text [] [] d) _
        (record { same = refl; at = refl; since = r.since; ascii_before = tt; ascii_after = tt })

  pub exit-Represents :
      (d : Editor) (e : ShinranEngine) → Represents d e → Ends (Represents d) (exit e)
  exit-Represents d e r = record {
    same = r.same;
    at = r.at;
    since = r.since;
    ascii_before = r.ascii_before;
    ascii_after = r.ascii_after;
  }

  pub commit-Represents :
      (output : Option Text) (d : Editor) (e : ShinranEngine)
      → Represents d e
      → Ends (Represents d) (commit host output e)
  commit-Represents none d e r = r
  commit-Represents (some text) d e r = send-Represents (commit_text text) d e r

  pub expand-Represents :
      (r : Answer E (Option Text)) (d : Editor) (e : ShinranEngine)
      → (output : Option Text) × (r ≡ answer output)
      → Represents d e
      → Ends (Represents (with_text [] [] d)) (expand host r e)
  expand-Represents r d e (output, q) h =
      subst (λ r'. Ends (Represents (with_text [] [] d)) (expand host r' e)) (sym q)
        (Ends-then_do _ _ (clear_text-Represents d e h)
          (commit-Represents output (with_text [] [] d)))

  -- An empty text is represented by the empty editor.
  pub Represents-empty :
      (d : Editor) (e : ShinranEngine)
      → Represents d e
      → is_empty e.text ≡ true
      → Represents (with_text [] [] d) e
  Represents-empty d e r h = record {
    same = empty e.text h;
    at =
        omega
          (arith, r.at, length-rev_onto d.before d.after, ap length (sym r.same ∙ empty e.text h));
    since = r.since;
    ascii_before = tt;
    ascii_after = tt;
  }
    where
      empty : (s : Text) → is_empty s ≡ true → s ≡ []
      empty [] q = refl
      empty (c ∷ s) q = ground arith

  pub press_return-Represents :
      (d : Editor) (e : ShinranEngine)
      → Represents d e
      → Ends (Represents (with_text [] [] d)) (press_return host e)
  unfolding press_return
  press_return-Represents d e r =
      Ends-then_do _ _ (go (is_empty e.text) refl) (exit-Represents (with_text [] [] d))
    where
      go :
          (b : Bool)
          → is_empty e.text ≡ b
          → Ends
              (Represents (with_text [] [] d))
              (if b then completed e else expand host (host.check_trigger e.text) e)
      go true q = Represents-empty d e r q
      go false q = expand-Represents (host.check_trigger e.text) d e (answers e.text) r

  pub edit-Represents :
      (s : Option Text) (t : Text) (d d' : Editor) (e : ShinranEngine) (pos : ℕ)
      → s ≡ some t
      → Represents d e
      → t ≡ rev_onto d'.before d'.after
      → pos ≡ length d'.before
      → d.started ≡ d'.started
      → IsAscii d'.before
      → IsAscii d'.after
      → Ends (Represents d') (edit host s pos e)
  edit-Represents s t d d' e pos q r same at since b a =
      subst (λ o. Ends (Represents d') (edit host o pos e)) (sym q)
        (update_text-Represents d' _ (record {
          same = same;
          at = at;
          since = r.since ∙ since;
          ascii_before = b;
          ascii_after = a;
        }))
