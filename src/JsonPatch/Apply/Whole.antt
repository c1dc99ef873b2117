-- ===== src/JsonPatch/Apply/Whole.antt =====
-- A whole patch: which operations have run, and what is left of the document.
use mathlib.Core.Path.{subst}
use programmable_redfish_pro.Prelude.{
  ℕ, zero, suc, ◌+◌, ◌*◌, ◌≤◌, ◌≡◌, refl, ap, ◌∙◌, ◌↔◌, Result-cases, Bool-cases, inl, inr, Result,
  ok, err, ok_injective, err_ne_ok, ltb, ltb→lt, arith,
}
use programmable_redfish_pro.Json.{Value, arr, Items, nil, cons, count, IsOrdered, AreOrdered}
use programmable_redfish_pro.JsonPatch.Pointer.{OpError}
use programmable_redfish_pro.JsonPatch.Edit.{nodes, nodes_items}
use programmable_redfish_pro.JsonPatch.Apply.{
  max_patch_ops, max_copy_nodes, PatchError, op_failed, apply_one, apply_from, apply_patch,
}
use programmable_redfish_pro.JsonPatch.Apply.Single.{apply_one-IsOrdered, nodes-apply_one}

-- `Run t ops n u rest`: the first `n` operations of `ops` have succeeded one after the other, and
-- took the document from `t` to `u`, with `rest` still to do.
pub data Run : Value → Items → ℕ → Value → Items → Type 0 where
  done : {t : Value} {ops : Items} → Run t ops zero t ops
  step :
      {t t' u : Value} {op : Value} {ops rest : Items} {n : ℕ}
      → apply_one t op ≡ ok t'
      → Run t' ops n u rest
      → Run t (cons op ops) (suc n) u rest

-- The operation at which a patch stops, and the document that it stops at.
pub record StopsAt (t : Value) (ops : Items) (n : ℕ) (e : OpError) : Type 0 where
  pub reached : Value
  pub op : Value
  pub rest : Items
  pub run : Run t ops n reached (cons op rest)
  pub fails : apply_one reached op ≡ err e

apply_from-Run :
    (i : ℕ) (t : Value) (ops : Items) {u : Value}
    → apply_from i t ops ≡ ok u
    → Run t ops (count ops) u nil
unfolding apply_from
apply_from-Run i t nil h = subst (λ v. Run t nil zero v nil) (ok_injective h) done
apply_from-Run i t (cons op ops) h = elim (Result-cases (apply_one t op)) [
  | inl (v, e) ↦ step e (apply_from-Run (suc i) v ops (rw e at h))
  | inr (x, e) ↦ absurd (err_ne_ok (rw e at h))
]

Run-apply_from :
    (i : ℕ) {t : Value} {ops : Items} {n : ℕ} {u : Value} {rest : Items}
    → Run t ops n u rest
    → rest ≡ nil
    → apply_from i t ops ≡ ok u
unfolding apply_from
Run-apply_from i (done {t}) e = rw e refl
Run-apply_from i (step h r) e = rw h (Run-apply_from (suc i) r e)

op_failed_injective :
    {i j : ℕ} {d e : OpError}
    → ◌≡◌ {A = Result PatchError Value} (err (op_failed i d)) (err (op_failed j e))
    → (i ≡ j) × (d ≡ e)
op_failed_injective h = ground arith

-- The loop stopped `n` operations after the one that it began with.
record Stop (i : ℕ) (t : Value) (ops : Items) (j : ℕ) (e : OpError) : Type 0 where
  after : ℕ
  index : j ≡ i + after
  stops : StopsAt t ops after e

Stop-step :
    {i j : ℕ} {t v op : Value} {ops : Items} {e : OpError}
    → apply_one t op ≡ ok v
    → Stop (suc i) v ops j e
    → Stop i t (cons op ops) j e
Stop-step h s = record {
  after = suc s.after;
  index = omega (arith, s.index);
  stops = record {
    reached = s.stops.reached;
    op = s.stops.op;
    rest = s.stops.rest;
    run = step h s.stops.run;
    fails = s.stops.fails;
  };
}

stopped :
    (i : ℕ) (t : Value) (ops : Items) {j : ℕ} {e : OpError}
    → apply_from i t ops ≡ err (op_failed j e)
    → Stop i t ops j e
unfolding apply_from
stopped i t nil h = cc
stopped i t (cons op ops) h = elim (Result-cases (apply_one t op)) [
  | inl (v, e) ↦ Stop-step e (stopped (suc i) v ops (rw e at h))
  | inr (x, e) ↦
      let (same, error) = op_failed_injective (rw e at h) in
      record {
        after = 0;
        index = omega (arith, same);
        stops = record { reached = t; op = op; rest = ops; run = done; fails = e ∙ ap err error };
      }
]

stops :
    (i : ℕ) {t : Value} {ops : Items} {n : ℕ} {u : Value} {rest : Items} (op : Value) (more : Items)
    (e : OpError)
    → Run t ops n u rest
    → rest ≡ cons op more
    → apply_one u op ≡ err e
    → apply_from i t ops ≡ err (op_failed (i + n) e)
unfolding apply_from
stops i op more e (done {t}) same h =
    rw (same, apply_from, h) (ap (λ n. err (op_failed n e)) (omega arith))
stops i op more e (step {n} k r) same h =
    rw k (stops (suc i) op more e r same h ∙ ap (λ n. err (op_failed n e)) (omega arith))

-- A patch succeeds with `u` exactly when it is no longer than the limit and all its operations
-- succeed one after the other, ending at `u`.
pub apply_patch-eq-ok_iff :
    (t : Value) (ops : Items) (u : Value)
    → (apply_patch t (arr ops) ≡ ok u) ↔ ((count ops ≤ max_patch_ops) × Run t ops (count ops) u nil)
unfolding apply_patch
apply_patch-eq-ok_iff t ops u = elim (Bool-cases (ltb max_patch_ops (count ops))) [
  | inl long ↦
      (λ h. absurd (err_ne_ok (rw long at h)), λ h. absurd (omega (arith, ltb→lt _ _ long, h.0)))
  | inr short ↦ (
    λ h. (ground arith, apply_from-Run 0 t ops (rw short at h)),
    λ h. rw short (Run-apply_from 0 h.1 refl),
  )
]

-- A patch fails with an operation's error exactly when it is no longer than the limit, the
-- operations before the reported index succeed, and the one at that index fails so.
pub apply_patch-eq-op_failed_iff :
    (t : Value) (ops : Items) (i : ℕ) (e : OpError)
    → (apply_patch t (arr ops) ≡ err (op_failed i e))
      ↔ ((count ops ≤ max_patch_ops) × StopsAt t ops i e)
unfolding apply_patch
apply_patch-eq-op_failed_iff t ops i e = elim (Bool-cases (ltb max_patch_ops (count ops))) [
  | inl long ↦ (λ h. cc (rw long at h), λ h. absurd (omega (arith, ltb→lt _ _ long, h.0)))
  | inr short ↦ (
    λ h.
        let s = stopped 0 t ops (rw short at h) in
        let same : s.after ≡ i = omega (arith, s.index) in
        (ground arith, subst (λ n. StopsAt t ops n e) same s.stops),
    λ h. rw short (
        stops 0 h.1.op h.1.rest e h.1.run refl h.1.fails
        ∙ ap (λ n. err (op_failed n e)) (omega arith)),
  )
]

Run-IsOrdered :
    {t : Value} {ops : Items} {n : ℕ} {u : Value} {rest : Items}
    → Run t ops n u rest
    → IsOrdered t
    → AreOrdered ops
    → IsOrdered u
unfolding IsOrdered
Run-IsOrdered done o p = o
Run-IsOrdered (step {t} {op} h r) o p = Run-IsOrdered r (apply_one-IsOrdered t op o p.0 h) p.1

ordered_ops : (ops : Items) → IsOrdered (arr ops) → AreOrdered ops
unfolding IsOrdered
ordered_ops ops h = h

-- Where the keys of the document and of the patch are in order, those of the result of a patch that
-- succeeds are.
pub apply_patch-IsOrdered :
    (t : Value) (ops : Items) (u : Value)
    → IsOrdered t
    → IsOrdered (arr ops)
    → apply_patch t (arr ops) ≡ ok u
    → IsOrdered u
apply_patch-IsOrdered t ops u o p h =
    Run-IsOrdered ((apply_patch-eq-ok_iff t ops u).0 h).1 o (ordered_ops ops p)

nodes-Run :
    {t : Value} {ops : Items} {n : ℕ} {u : Value} {rest : Items}
    → Run t ops n u rest
    → nodes u + nodes_items rest ≤ nodes t + nodes_items ops + max_copy_nodes * n
unfolding nodes
nodes-Run done = omega arith
nodes-Run (step {t} {op} h r) = omega (arith, nodes-apply_one t op h, nodes-Run r)

-- A patch that succeeds adds at most its own nodes, and 1024 times the 65536 nodes of the largest
-- copy.
pub nodes-apply_patch :
    (t : Value) (ops : Items) (u : Value)
    → apply_patch t (arr ops) ≡ ok u
    → nodes u ≤ nodes t + nodes (arr ops) + max_patch_ops * max_copy_nodes
unfolding nodes
nodes-apply_patch t ops u h =
    let (short, run) = (apply_patch-eq-ok_iff t ops u).0 h in omega (arith, nodes-Run run, short)
