-- ===== src/Replacement/SecondChance/Misses.antt =====
-- The misses of second_chance in lab9/main.cpp.
use sustech_cs.Prelude.{
  ℕ, ◌-◌, ◌/◌, ◌≤◌, ◌<◌, ◌≡◌, refl, ap, ◌∙◌, inl, inr, true, false, ◌&&◌, ◌||◌, ltb, ◌==◌, ◌>>=◌,
  length, arith, Bool-cases, if_true, if_false, ==_refl,
}
use sustech_cs.Replacement.Pages.{contains, length-push}
use sustech_cs.Replacement.SecondChance.{Chance, fifo_push, demote, access}
use sustech_cs.Replacement.SecondChance.Halves.{fifo_push-Halves, lru_pop-Left}
use sustech_cs.Replacement.SecondChance.Moves.{push_self, demote-Moved}
use sustech_cs.Replacement.SecondChance.State.{Valid, cached, Stepped, half_positive}

ltb-true : (a b : ℕ) → a < b → ltb a b ≡ true
ltb-true a b h = ground arith

ltb-false : (a b : ℕ) → a ≡ b → ltb a b ≡ false
ltb-false a b h = ground arith

lt_of_ltb : (a b : ℕ) → ltb a b ≡ true → a < b
lt_of_ltb a b h = ground arith

ge_of_ltb : (a b : ℕ) → ltb a b ≡ false → b ≤ a
ge_of_ltb a b h = ground arith

-- A page that is not cached goes to the room that the queue has left,
access-room :
    (k p : ℕ) (s : Chance)
    → Valid k s
    → cached p s ≡ false
    → length s.que < k / 2
    → Stepped k p s s.hit
unfolding access
access-room k p s v e h =
    let out_que : contains p s.que ≡ false = ground arith in
    let out_ls : contains p s.ls ≡ false = ground arith in
    let not_there : (s.ele_set.mem p || s.pos_map.mem p) ≡ false =
      rw (v.halves.que_step.same p, v.halves.ls_step.same p) e in
    let room : ltb (length s.que) (k / 2) ≡ true = ltb-true (length s.que) (k / 2) h in
    (
      fifo_push p s,
      if_false _ _ not_there ∙ if_true _ _ room,
      (
        record {
          halves = fifo_push-Halves p s v.halves out_que out_ls;
          que_small = omega (arith, length-push s.que p, h);
          ls_small = v.ls_small;
          filled = elim v.filled [ inl z ↦ inl z | inr g ↦ absurd (omega (arith, g, h)) ];
        },
        push_self p s.que,
        refl,
      ),
    )

-- or takes the place of the oldest of the queue, which moves to the list,
access-demote :
    (k p : ℕ) (s : Chance)
    → 2 ≤ k
    → Valid k s
    → cached p s ≡ false
    → length s.que ≡ k / 2
    → length s.ls < k - k / 2
    → Stepped k p s s.hit
unfolding access
access-demote k p s h v e full room =
    let out_que : contains p s.que ≡ false = ground arith in
    let out_ls : contains p s.ls ≡ false = ground arith in
    let not_there : (s.ele_set.mem p || s.pos_map.mem p) ≡ false =
      rw (v.halves.que_step.same p, v.halves.ls_step.same p) e in
    let no_room : ltb (length s.que) (k / 2) ≡ false = ltb-false (length s.que) (k / 2) full in
    let is_full : (length s.que == (k / 2)) ≡ true = rw full (==_refl (k / 2)) in
    let ls_room = ltb-true (length s.ls) (k - k / 2) room in
    let both : ((length s.que == (k / 2)) && ltb (length s.ls) (k - k / 2)) ≡ true =
      rw (is_full, ls_room) refl in
    let (s', made, m) =
      demote-Moved p s v.halves out_que out_ls (omega (arith, full, half_positive k h)) in
    (
      s',
      if_false _ _ not_there ∙ (if_false _ _ no_room ∙ (if_true _ _ both ∙ made)),
      (
        record {
          halves = m.halves;
          que_small = omega (arith, m.que_size, v.que_small);
          ls_small = omega (arith, m.ls_size, room);
          filled = inr (m.que_size ∙ full);
        },
        m.cached,
        m.hit_kept,
      ),
    )

-- from which the page whose last use is longest ago goes if that is full.
access-full :
    (k p : ℕ) (s : Chance)
    → 2 ≤ k
    → Valid k s
    → cached p s ≡ false
    → length s.que ≡ k / 2
    → length s.ls ≡ k - k / 2
    → Stepped k p s s.hit
unfolding access
access-full k p s h v e full ls_full =
    let out_que : contains p s.que ≡ false = ground arith in
    let out_ls : contains p s.ls ≡ false = ground arith in
    let not_there : (s.ele_set.mem p || s.pos_map.mem p) ≡ false =
      rw (v.halves.que_step.same p, v.halves.ls_step.same p) e in
    let no_room : ltb (length s.que) (k / 2) ≡ false = ltb-false (length s.que) (k / 2) full in
    let is_full : (length s.que == (k / 2)) ≡ true = rw full (==_refl (k / 2)) in
    let no_ls_room = ltb-false (length s.ls) (k - k / 2) ls_full in
    let ls_is_full : (length s.ls == (k - k / 2)) ≡ true = rw ls_full (==_refl (k - k / 2)) in
    let not_both : ((length s.que == (k / 2)) && ltb (length s.ls) (k - k / 2)) ≡ false =
      rw (is_full, no_ls_room) refl in
    let both : ((length s.que == (k / 2)) && (length s.ls == (k - k / 2))) ≡ true =
      rw (is_full, ls_is_full) refl in
    let (t, popped, left) = lru_pop-Left s v.halves (omega (arith, ls_full, h)) in
    let size = ap length left.que_kept in
    let positive : 1 ≤ length t.que = omega (arith, size, full, half_positive k h) in
    let (s', made, m) =
      demote-Moved p t left.halves (ap (contains p) left.que_kept ∙ out_que)
        (left.kept_out p out_ls) positive in
    (
      s',
      if_false _ _ not_there
          ∙ (if_false _ _ no_room
              ∙ (if_false _ _ not_both
                  ∙ (if_true _ _ both ∙ (ap (λ o. o >>= demote p) popped ∙ made)))),
      (
        record {
          halves = m.halves;
          que_small = omega (arith, m.que_size, size, v.que_small);
          ls_small = omega (arith, m.ls_size, left.fewer, v.ls_small);
          filled = inr (m.que_size ∙ (size ∙ full));
        },
        m.cached,
        m.hit_kept ∙ left.hit_kept,
      ),
    )

pub access-miss :
    (k p : ℕ) (s : Chance) → 2 ≤ k → Valid k s → cached p s ≡ false → Stepped k p s s.hit
access-miss k p s h v e = elim (Bool-cases (ltb (length s.que) (k / 2))) [
  | inl f ↦ access-room k p s v e (lt_of_ltb (length s.que) (k / 2) f)
  | inr f ↦
      let full : length s.que ≡ k / 2 =
        omega (arith, ge_of_ltb (length s.que) (k / 2) f, v.que_small) in
      elim (Bool-cases (ltb (length s.ls) (k - k / 2))) [
        | inl g ↦ access-demote k p s h v e full (lt_of_ltb (length s.ls) (k - k / 2) g)
        | inr g ↦
            access-full k p s h v e full
              (omega (arith, ge_of_ltb (length s.ls) (k - k / 2) g, v.ls_small))
      ]
]
