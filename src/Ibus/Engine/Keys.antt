-- ===== src/Ibus/Engine/Keys.antt =====
-- What the keys do to the text, in crates/shinran_ibus/src/engine.rs: what they do to the editor.
use shinran.Prelude.{
  ℕ, ◌+◌, ◌-◌, ◌%◌, ◌^◌, ◌≤◌, ◌<◌, Text, Bool, true, false, Option, none, some, [], ◌∷◌, ◌++◌, ◌≡◌,
  ◌⊎◌, inl, inr, refl, sym, ap, ◌∙◌, subst, arith, length, ltb, nat_eq, if◌then◌else◌, answer,
}
use shinran.Ibus.LookupTable.{u32_mod}
use shinran.Ibus.Bytes.{byte_len, remove_at, insert_at}
use shinran.Ibus.Engine.{
  Host, Keysym, return_, kp_enter, escape, back_space, delete, kp_delete, left, kp_left, right,
  kp_right, other, ShinranEngine, completed, panicked, ◌then_do◌, is_accepted, edit, update_text,
  press_back_space, press_delete, type_char, press, move_cursor, clamp, as_i32, i32_add, i32_zero,
}
use shinran.Ibus.Engine.Editor.{
  Editor, rev_onto, IsAscii, with_text, erase, erase_next, go_left, go_right, insert_char, strike,
  Represents, Ends, HasRoom, Ends-then_do, TypesAscii,
}
use shinran.Ibus.Engine.Positions.{
  byte_len-rev_onto, rev_onto-append, remove_at-rev_onto, insert_at-rev_onto,
}
use shinran.Ibus.Engine.Handlers.{
  edit-Represents, update_text-Represents, clear_text-Represents, exit-Represents,
  press_return-Represents,
}

module _ {E : Type 0} (host : Host E)
    (answers : (s : Text) → (output : Option Text) × (host.check_trigger s ≡ answer output)) where
  pub press_back_space-Represents :
      (b a : Text) (d : Editor) (e : ShinranEngine)
      → Represents (with_text b a d) e
      → Ends (Represents (erase b a (with_text b a d))) (press_back_space host e)
  unfolding press_back_space
  press_back_space-Represents b a d e r = go (nat_eq e.cursor_pos 0) refl b r
    where
      go :
          (t : Bool)
          → nat_eq e.cursor_pos 0 ≡ t
          → (b : Text) → Represents (with_text b a d) e
          → Ends (Represents (erase b a (with_text b a d))) (
              if t
              then completed e
              else edit host (remove_at e.text (e.cursor_pos - 1)) (e.cursor_pos - 1) e)
      go true q [] r = r
      go true q (c ∷ b) r = absurd (ground (arith, r.at))
      go false q [] r = absurd (ground (arith, r.at))
      go false q (c ∷ b) r =
          edit-Represents host answers _ (rev_onto b a) (with_text (c ∷ b) a d) (with_text b a d) e
            (e.cursor_pos - 1)
            (ap (λ s. remove_at s (e.cursor_pos - 1)) r.same
              ∙ remove_at-rev_onto b (c ∷ a) a 0 (e.cursor_pos - 1) r.ascii_before.1
                  (omega (arith, r.at)) refl)
            r refl (omega (arith, r.at)) refl r.ascii_before.1 r.ascii_after

  pub press_delete-Represents :
      (b a : Text) (d : Editor) (e : ShinranEngine)
      → Represents (with_text b a d) e
      → Ends (Represents (erase_next b a (with_text b a d))) (press_delete host e)
  unfolding press_delete
  press_delete-Represents b a d e r = go (ltb e.cursor_pos (byte_len e.text)) refl a r
    where
      size : (a : Text) → Represents (with_text b a d) e → byte_len e.text ≡ e.cursor_pos + length a
      size a r =
          omega
            (arith, r.at, ap byte_len r.same, byte_len-rev_onto b a r.ascii_before r.ascii_after)

      go :
          (t : Bool)
          → ltb e.cursor_pos (byte_len e.text) ≡ t
          → (a : Text) → Represents (with_text b a d) e
          → Ends
              (Represents (erase_next b a (with_text b a d)))
              (if t then edit host (remove_at e.text e.cursor_pos) e.cursor_pos e else completed e)
      go true q [] r = absurd (ground (arith, size [] r))
      go true q (c ∷ a) r =
          edit-Represents host answers _ (rev_onto b a) (with_text b (c ∷ a) d) (with_text b a d) e
            e.cursor_pos
            (ap (λ s. remove_at s e.cursor_pos) r.same
              ∙ remove_at-rev_onto b (c ∷ a) a 0 e.cursor_pos r.ascii_before (omega (arith, r.at))
                  refl)
            r refl (omega (arith, r.at)) refl r.ascii_before r.ascii_after.1
      go false q [] r = r
      go false q (c ∷ a) r = absurd (ground (arith, size (c ∷ a) r))

  pub type_char-Represents :
      (key_char : Option ℕ) (b a : Text) (d : Editor) (e : ShinranEngine)
      → TypesAscii (other key_char)
      → HasRoom (with_text b a d)
      → Represents (with_text b a d) e
      → Ends (Represents (insert_char key_char (with_text b a d))) (type_char host key_char e)
  unfolding type_char
  type_char-Represents none b a d e k room r = r
  type_char-Represents (some x) b a d e k room r = go (is_accepted x)
    where
      put :
          (t : Bool) (a : Text)
          → ltb e.cursor_pos (byte_len e.text) ≡ t
          → Represents (with_text b a d) e
          → (if t then insert_at e.text e.cursor_pos x else some (e.text ++ x ∷ []))
            ≡ some (rev_onto b (x ∷ a))
      put true [] q r =
          absurd
            (ground (arith, r.at, ap byte_len r.same, byte_len-rev_onto b [] r.ascii_before tt))
      put true (c ∷ a) q r =
          ap (λ s. insert_at s e.cursor_pos x) r.same
          ∙ insert_at-rev_onto b (c ∷ a) (x ∷ c ∷ a) 0 e.cursor_pos x r.ascii_before
              (omega (arith, r.at)) refl
      put false [] q r =
          ap (λ s. some (s ++ x ∷ [])) r.same ∙ ap some (rev_onto-append b [] (x ∷ []))
      put false (c ∷ a) q r = absurd (
          ground (
            arith,
            r.at,
            ap byte_len r.same,
            byte_len-rev_onto b (c ∷ a) r.ascii_before r.ascii_after,
          ))

      go :
          (t : Bool)
          → Ends (Represents (if t then with_text (x ∷ b) a d else with_text b a d)) (
              if t
              then edit host
                  (if ltb e.cursor_pos (byte_len e.text)
                    then insert_at e.text e.cursor_pos x
                    else some (e.text ++ x ∷ []))
                  ((e.cursor_pos + 1) % u32_mod)
                  e
              else completed e)
      go true =
          edit-Represents host answers _ (rev_onto b (x ∷ a)) (with_text b a d)
            (with_text (x ∷ b) a d) e _ (put (ltb e.cursor_pos (byte_len e.text)) a refl r) r refl
            (omega (arith, r.at)) refl (k, r.ascii_before) r.ascii_after
      go false = r

  clamp-left :
      (len pos : ℕ)
      → len < 2 ^ 31
      → pos ≤ len
      → clamp i32_zero (as_i32 len) (i32_add (as_i32 pos) (i32_zero - 1))
        ≡ some (i32_zero + (pos - 1))
  clamp-left len pos room h = ground arith

  clamp-right :
      (len pos next : ℕ)
      → len + 1 < 2 ^ 31
      → pos ≤ len
      → ((pos < len) × (next ≡ pos + 1)) ⊎ ((pos ≡ len) × (next ≡ pos))
      → clamp i32_zero (as_i32 len) (i32_add (as_i32 pos) (i32_zero + 1)) ≡ some (i32_zero + next)
  clamp-right len pos next room h c = ground arith

  move_cursor-Represents :
      (offset next : ℕ) (d d' : Editor) (e : ShinranEngine)
      → clamp i32_zero (as_i32 (byte_len e.text)) (i32_add (as_i32 e.cursor_pos) offset)
        ≡ some (i32_zero + next)
      → next < 2 ^ 31
      → Represents d e
      → rev_onto d.before d.after ≡ rev_onto d'.before d'.after
      → next ≡ length d'.before
      → d.started ≡ d'.started
      → IsAscii d'.before
      → IsAscii d'.after
      → Ends (Represents d') (move_cursor offset e then_do update_text host)
  unfolding move_cursor
  move_cursor-Represents offset next d d' e q small r same at since b a =
      subst
        (λ o. Ends (Represents d') (
          elim o [
            | none ↦ panicked
            | some pos ↦ completed (record e { cursor_pos = (pos + i32_zero) % u32_mod })
          ]
          then_do update_text host))
        (sym q)
        (update_text-Represents host answers d' _ (record {
          same = r.same ∙ same;
          at = omega (arith, at);
          since = r.since ∙ since;
          ascii_before = b;
          ascii_after = a;
        }))

  size :
      (b a : Text) (d : Editor) (e : ShinranEngine)
      → Represents (with_text b a d) e
      → byte_len e.text ≡ length b + length a
  size b a d e r = ap byte_len r.same ∙ byte_len-rev_onto b a r.ascii_before r.ascii_after

  pub left-Represents :
      (b a : Text) (d : Editor) (e : ShinranEngine)
      → HasRoom (with_text b a d)
      → Represents (with_text b a d) e
      → Ends
          (Represents (go_left b a (with_text b a d)))
          (move_cursor (i32_zero - 1) e then_do update_text host)
  left-Represents [] a d e room r =
      move_cursor-Represents (i32_zero - 1) (e.cursor_pos - 1) (with_text [] a d) (with_text [] a d)
        e
        (clamp-left (byte_len e.text) e.cursor_pos (omega (arith, size [] a d e r))
          (omega (arith, size [] a d e r, r.at)))
        (omega (arith, r.at)) r refl (omega (arith, r.at)) refl r.ascii_before r.ascii_after
  left-Represents (c ∷ b) a d e room r =
      move_cursor-Represents (i32_zero - 1) (e.cursor_pos - 1) (with_text (c ∷ b) a d)
        (with_text b (c ∷ a) d) e
        (clamp-left (byte_len e.text) e.cursor_pos (omega (arith, size (c ∷ b) a d e r))
          (omega (arith, size (c ∷ b) a d e r, r.at)))
        (omega (arith, r.at)) r refl (omega (arith, r.at)) refl r.ascii_before.1
        (r.ascii_before.0, r.ascii_after)

  pub right-Represents :
      (b a : Text) (d : Editor) (e : ShinranEngine)
      → HasRoom (with_text b a d)
      → Represents (with_text b a d) e
      → Ends
          (Represents (go_right b a (with_text b a d)))
          (move_cursor (i32_zero + 1) e then_do update_text host)
  right-Represents b [] d e room r =
      move_cursor-Represents (i32_zero + 1) e.cursor_pos (with_text b [] d) (with_text b [] d) e
        (clamp-right (byte_len e.text) e.cursor_pos e.cursor_pos (omega (arith, size b [] d e r))
          (omega (arith, size b [] d e r, r.at)) (inr (omega (arith, size b [] d e r, r.at), refl)))
        (omega (arith, r.at)) r refl r.at refl r.ascii_before r.ascii_after
  right-Represents b (c ∷ a) d e room r =
      move_cursor-Represents (i32_zero + 1) (e.cursor_pos + 1) (with_text b (c ∷ a) d)
        (with_text (c ∷ b) a d) e
        (clamp-right (byte_len e.text) e.cursor_pos (e.cursor_pos + 1)
          (omega (arith, size b (c ∷ a) d e r)) (omega (arith, size b (c ∷ a) d e r, r.at))
          (inl (omega (arith, size b (c ∷ a) d e r, r.at), refl)))
        (omega (arith, r.at)) r refl (omega (arith, r.at)) refl (r.ascii_after.0, r.ascii_before)
        r.ascii_after.1

  -- Each key does what the editor does.
  pub press-Represents :
      (key : Keysym) (d : Editor) (e : ShinranEngine)
      → TypesAscii key
      → HasRoom d
      → Represents d e
      → Ends (Represents (strike key d)) (press host key e)
  unfolding press
  press-Represents return_ d e k room r = press_return-Represents host answers d e r
  press-Represents kp_enter d e k room r = press_return-Represents host answers d e r
  press-Represents escape d e k room r =
      Ends-then_do _ _ (clear_text-Represents host answers d e r)
        (exit-Represents host answers (with_text [] [] d))
  press-Represents back_space d e k room r = press_back_space-Represents d.before d.after d e r
  press-Represents delete d e k room r = press_delete-Represents d.before d.after d e r
  press-Represents kp_delete d e k room r = press_delete-Represents d.before d.after d e r
  press-Represents left d e k room r = left-Represents d.before d.after d e room r
  press-Represents kp_left d e k room r = left-Represents d.before d.after d e room r
  press-Represents right d e k room r = right-Represents d.before d.after d e room r
  press-Represents kp_right d e k room r = right-Represents d.before d.after d e room r
  press-Represents (other key_char) d e k room r =
      type_char-Represents key_char d.before d.after d e k room r
