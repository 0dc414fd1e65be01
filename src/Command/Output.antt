-- ===== src/Command/Output.antt =====
-- The output that src/remote_command.rs keeps of a command.
use shoestring_wm.Prelude.{
  ℕ, zero, suc, ◌+◌, ◌-◌, ◌≡◌, refl, sym, ap, subst, ◌∙◌, Bool, true, false, ◌||◌, some, List, [],
  ◌∷◌, ◌++◌, arith, if◌then◌else◌, ltb, length, length-append, take,
}
use shoestring_wm.Command.{
  run_command_output_cap, PipeKind, stdout, stderr, Pending, Wm, get, capped, overflows,
  with_output, take_output, on_command_output,
}
use shoestring_wm.Command.Waiting.{get-put}

append_assoc : (xs ys zs : List ℕ) → (xs ++ ys) ++ zs ≡ xs ++ (ys ++ zs)
append_assoc [] ys zs = refl
append_assoc (x ∷ xs) ys zs = ap (◌∷◌ x) (append_assoc xs ys zs)

append_nil : (xs : List ℕ) → xs ++ [] ≡ xs
append_nil [] = refl
append_nil (x ∷ xs) = ap (◌∷◌ x) (append_nil xs)

take_more : (n : ℕ) (w b : List ℕ) → take n w ++ take (n - length (take n w)) b ≡ take n (w ++ b)
take_more zero w b = refl
take_more (suc n) [] b = ap (λ k. take k b) {x = suc n - 0} {y = suc n} (omega arith)
take_more (suc n) (x ∷ w) b = ap (◌∷◌ x) (
    ap (λ k. take n w ++ take k b) {x = suc n - suc (length (take n w))} {y = n - length (take n w)}
      (omega arith)
    ∙ take_more n w b)

length-take-min :
    (n : ℕ) (w : List ℕ) → length (take n w) ≡ (if ltb n (length w) then n else length w)
length-take-min zero [] = ground arith
length-take-min zero (x ∷ w) = ground arith
length-take-min (suc n) [] = ground arith
length-take-min (suc n) (x ∷ w) = ground (arith, length-take-min n w)

-- What a command keeps of what it has written.
abbrev pub Kept : List ℕ → List ℕ → Pending → Type 0
Kept out err p =
    (p.stdout_buf ≡ take run_command_output_cap out)
    × (p.stderr_buf ≡ take run_command_output_cap err)
    × (p.truncated
        ≡ (ltb run_command_output_cap (length out) || ltb run_command_output_cap (length err)))

over_lem :
    (cap kept lw lb : ℕ) (t : Bool)
    → kept ≡ (if ltb cap lw then cap else lw)
    → (if ltb (cap - kept) lb then true else (ltb cap lw || t)) ≡ (ltb cap (lw + lb) || t)
over_lem cap kept lw lb true e = ground (arith, e)
over_lem cap kept lw lb false e = ground (arith, e)

overflows_lem :
    (w b : List ℕ) (t : Bool)
    → (if overflows (take run_command_output_cap w) b
        then true
        else (ltb run_command_output_cap (length w) || t))
      ≡ (ltb run_command_output_cap (length (w ++ b)) || t)
overflows_lem w b t =
    over_lem run_command_output_cap _ (length w) (length b) t
      (length-take-min run_command_output_cap w)
    ∙ ap (λ k. ltb run_command_output_cap k || t) (sym (length-append w b))

or_comm : (a b : Bool) → (a || b) ≡ (b || a)
or_comm a b = ground arith

stdout-Kept :
    (out err bytes : List ℕ) (p : Pending)
    → Kept out err p
    → Kept (out ++ bytes) err (with_output stdout bytes p)
stdout-Kept out err bytes p k = (
  ap (λ w. capped w bytes) k.0 ∙ take_more run_command_output_cap out bytes,
  k.1,
  ap (λ w. if overflows w bytes then true else p.truncated) k.0
      ∙ ap (λ t. if overflows (take run_command_output_cap out) bytes then true else t) k.2
      ∙ overflows_lem out bytes (ltb run_command_output_cap (length err)),
)

stderr-Kept :
    (out err bytes : List ℕ) (p : Pending)
    → Kept out err p
    → Kept out (err ++ bytes) (with_output stderr bytes p)
stderr-Kept out err bytes p k = (
  k.0,
  ap (λ w. capped w bytes) k.1 ∙ take_more run_command_output_cap err bytes,
  ap (λ w. if overflows w bytes then true else p.truncated) k.1
      ∙ ap (λ t. if overflows (take run_command_output_cap err) bytes then true else t)
          (k.2
            ∙ or_comm (ltb run_command_output_cap (length out))
                (ltb run_command_output_cap (length err)))
      ∙ overflows_lem err bytes (ltb run_command_output_cap (length out))
      ∙ or_comm (ltb run_command_output_cap (length (err ++ bytes)))
          (ltb run_command_output_cap (length out)),
)

-- Chunks of output as they arrive, and those of one stream.
abbrev pub Chunks : Type 0
Chunks = List (PipeKind × List ℕ)

unfoldable pub outputs : ℕ → Chunks → Wm → Wm
outputs id [] wm = wm
outputs id ((kind, bytes) ∷ chunks) wm = outputs id chunks (on_command_output id kind bytes wm)

unfoldable pub written : PipeKind → Chunks → List ℕ
written kind [] = []
written stdout ((stdout, bytes) ∷ chunks) = bytes ++ written stdout chunks
written stdout ((stderr, bytes) ∷ chunks) = written stdout chunks
written stderr ((stdout, bytes) ∷ chunks) = written stderr chunks
written stderr ((stderr, bytes) ∷ chunks) = bytes ++ written stderr chunks

output-get :
    (id : ℕ) (kind : PipeKind) (bytes : List ℕ) (p : Pending) (wm : Wm)
    → get id wm.pending_commands ≡ some p
    → get id (on_command_output id kind bytes wm).pending_commands ≡ some (with_output kind bytes p)
unfolding on_command_output
output-get id kind bytes p wm e =
    ap (λ o. get id (take_output id kind bytes o wm).pending_commands) e
    ∙ get-put id (with_output kind bytes p) wm

outputs-Kept :
    (id : ℕ) (out err : List ℕ) (p : Pending) (chunks : Chunks) (wm : Wm)
    → get id wm.pending_commands ≡ some p
    → Kept out err p
    → (q : Pending) × (get id (outputs id chunks wm).pending_commands ≡ some q)
      × Kept (out ++ written stdout chunks) (err ++ written stderr chunks) q
unfolding outputs written
outputs-Kept id out err p [] wm e k = (
  p,
  e,
  subst (λ w. Kept w (err ++ []) p) (sym (append_nil out))
      (subst (λ w. Kept out w p) (sym (append_nil err)) k),
)
outputs-Kept id out err p ((stdout, bytes) ∷ chunks) wm e k =
    subst (Goes (err ++ written stderr chunks)) (append_assoc out bytes (written stdout chunks)) (
      outputs-Kept id (out ++ bytes) err (with_output stdout bytes p) chunks _
        (output-get id stdout bytes p wm e) (stdout-Kept out err bytes p k))
  where
    Goes : List ℕ → List ℕ → Type 0
    Goes w2 w1 =
        (q : Pending) × (get id
            (outputs id chunks (on_command_output id stdout bytes wm)).pending_commands
          ≡ some q)
        × Kept w1 w2 q
outputs-Kept id out err p ((stderr, bytes) ∷ chunks) wm e k =
    subst (Goes (out ++ written stdout chunks)) (append_assoc err bytes (written stderr chunks)) (
      outputs-Kept id out (err ++ bytes) (with_output stderr bytes p) chunks _
        (output-get id stderr bytes p wm e) (stderr-Kept out err bytes p k))
  where
    Goes : List ℕ → List ℕ → Type 0
    Goes w1 w2 =
        (q : Pending) × (get id
            (outputs id chunks (on_command_output id stderr bytes wm)).pending_commands
          ≡ some q)
        × Kept w1 w2 q

-- A command that has had no output yet keeps, of whatever chunks then arrive on its two streams in any
-- order, the first bytes of each stream up to the cap, and is marked truncated exactly when one of them
-- was longer.
pub output_kept :
    (id : ℕ) (p : Pending) (chunks : Chunks) (wm : Wm)
    → get id wm.pending_commands ≡ some p
    → p.stdout_buf ≡ []
    → p.stderr_buf ≡ []
    → p.truncated ≡ false
    → (q : Pending) × (get id (outputs id chunks wm).pending_commands ≡ some q)
      × (q.stdout_buf ≡ take run_command_output_cap (written stdout chunks))
      × (q.stderr_buf ≡ take run_command_output_cap (written stderr chunks))
      × (q.truncated ≡ (
          ltb run_command_output_cap (length (written stdout chunks))
          || ltb run_command_output_cap (length (written stderr chunks))))
output_kept id p chunks wm e o r t =
    let kept : (q : Pending) × (get id (outputs id chunks wm).pending_commands ≡ some q)
        × Kept (written stdout chunks) (written stderr chunks) q =
      outputs-Kept id [] [] p chunks wm e (o, r, t) in
    (kept.0, kept.1, kept.2.0, kept.2.1, kept.2.2)
