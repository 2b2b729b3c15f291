-- ===== src/Replacement/SecondChance/Moves.antt =====
-- The replacements of second_chance in lab9/main.cpp.
use sustech_cs.Prelude.{
  ℕ, ◌+◌, ◌≤◌, ◌≡◌, ◌≢◌, ap, sym, ◌∙◌, subst, true, false, some, List, ◌>>=◌, length, arith,
}
use sustech_cs.Replacement.{push}
use sustech_cs.Replacement.Pages.{contains, contains-push, length-push}
use sustech_cs.Replacement.SecondChance.{Chance, fifo_push, lru_push, fifo_pop, promote, demote}
use sustech_cs.Replacement.SecondChance.Halves.{
  Halves, fifo_push-Halves, lru_push-Halves, fifo_pop-Popped, lru_erase-Left,
}

pub push_self : (p : ℕ) (l : List ℕ) → contains p (push l p) ≡ true
push_self p l = let f = contains-push p p l in ground arith

push-other : (p q : ℕ) (l : List ℕ) → contains q l ≡ false → p ≢ q → contains q (push l p) ≡ false
push-other p q l e n = let f = contains-push p q l in ground arith

differ : (f p : ℕ) (l : List ℕ) → contains f l ≡ true → contains p l ≡ false → f ≢ p
differ f p l e e' g = let h : contains p l ≡ true = subst (λ x. contains x l ≡ true) g e in cc

-- What a replacement leaves: the page is in the queue, and as many others are.
pub record Moved (s : Chance) (p : ℕ) (more : ℕ) (s' : Chance) : Type 0 where
  pub halves : Halves s'
  pub que_size : length s'.que ≡ length s.que
  pub ls_size : length s'.ls ≡ length s.ls + more
  pub hit_kept : s'.hit ≡ s.hit
  pub cached : contains p s'.que ≡ true

pub demote-Moved :
    (p : ℕ) (s : Chance)
    → Halves s
    → contains p s.que ≡ false
    → contains p s.ls ≡ false
    → 1 ≤ length s.que
    → (s' : Chance) × (demote p s ≡ some s') × Moved s p 1 s'
unfolding demote
demote-Moved p s v e e' h =
    let (f, t, made, popped) = fifo_pop-Popped s v h in
    let out_of_ls = ap (contains p) popped.ls_kept ∙ e' in
    let u = fifo_push p t in
    let halves = fifo_push-Halves p t popped.halves (popped.kept_out p e) out_of_ls in
    let different : p ≢ f = λ g. differ f p s.que popped.was_there e (sym g) in
    let on = λ (x : ℕ × Chance). some (lru_push x.0 (fifo_push p x.1)) in
    (
      lru_push f u,
      ap (λ m. m >>= on) made,
      record {
        halves =
            lru_push-Halves f u halves (push-other p f t.que popped.gone different)
              popped.elsewhere;
        que_size = omega (arith, length-push t.que p, popped.fewer);
        ls_size = omega (arith, length-push t.ls f, ap length popped.ls_kept);
        hit_kept = popped.hit_kept;
        cached = push_self p t.que;
      },
    )

pub promote-Moved :
    (p : ℕ) (s : Chance)
    → Halves s
    → contains p s.que ≡ false
    → contains p s.ls ≡ true
    → 1 ≤ length s.que
    → (s' : Chance) × (promote p s ≡ some s') × Moved s p 0 s'
unfolding promote
promote-Moved p s v e e' h =
    let (s1, erased, left, out) = lru_erase-Left p s v e' in
    let size = ap length left.que_kept in
    let (f, t, made, popped) = fifo_pop-Popped s1 left.halves (omega (arith, size, h)) in
    let e1 = ap (contains p) left.que_kept ∙ e in
    let different : f ≢ p = differ f p s1.que popped.was_there e1 in
    let halves = lru_push-Halves f t popped.halves popped.gone popped.elsewhere in
    let out_of_ls = ap (contains p) popped.ls_kept ∙ out in
    let on = λ (x : ℕ × Chance). some (fifo_push p (lru_push x.0 x.1)) in
    (
      fifo_push p (lru_push f t),
      ap (λ m. m >>= (λ t. fifo_pop t >>= on)) erased ∙ ap (λ m. m >>= on) made,
      record {
        halves =
            fifo_push-Halves p (lru_push f t) halves (popped.kept_out p e1)
              (push-other f p t.ls out_of_ls different);
        que_size = omega (arith, length-push t.que p, popped.fewer, size);
        ls_size = omega (arith, length-push t.ls f, ap length popped.ls_kept, left.fewer);
        hit_kept = popped.hit_kept ∙ left.hit_kept;
        cached = push_self p t.que;
      },
    )
