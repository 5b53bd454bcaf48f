-- ===== src/SubprocessRunner/Exhausted.antt =====
-- How often a process can launch a command before it has no descriptor left.
use mathlib.Core.Option
use capnp_ls.Prelude.{
  ℕ, zero, suc, ◌+◌, ◌*◌, ◌<◌, ◌≤◌, Bool, true, false, Bool-cases, leb, Option, none, some, [], ◌∷◌,
  length, ◌≡◌, inl, inr, refl, ap, ◌∙◌, arith,
}
use capnp_ls.SubprocessRunner.Descriptors.{
  read_end, write_end, Table, held, set, close, first_free, make_pipe, parent_table, Launch, failed,
  launched, launch,
}
use capnp_ls.SubprocessRunner.Tables.{
  length-set, held-set, first_free-IsFree, opened, opened-le, opened-set, opened-close,
}
use capnp_ls.SubprocessRunner.Launches.{
  Launched, launch-Launched, make_pipe_two, make_pipe-Made, launch_pipes,
}
use capnp_ls.SubprocessRunner.Closing.{held-lt, Made-Apart}

launch-opened :
    (pipe : ℕ) (t parent child : Table) (out err : ℕ)
    → Launched pipe t parent child out err
    → (opened parent ≡ opened t + 2) × (length parent ≡ length t)
unfolding parent_table
launch-opened pipe t parent child out err l =
    let a = l.out_made in
    let b = l.err_made in
    let apart = Made-Apart pipe t l.t1 l.t2 out l.pipe_1 err l.err_1 a b in
    let w = l.pipe_1 in
    let v = l.err_1 in
    let c1 = close w l.t2 in
    let at_w : held l.t2 w ≡ some (write_end pipe) =
      ground (arith, a.ends w, b.ends w, apart.w_e, apart.w_v) in
    let w_lt = held-lt l.t2 w (write_end pipe) at_w in
    let at_v : held c1 v ≡ some (write_end (pipe + 1)) =
      ground (arith, b.ends v, held-set l.t2 w none v w_lt, apart.w_v) in
    (
      ap opened l.parent_is
          ∙ omega (
            arith,
            opened-close l.t2 w (write_end pipe) at_w,
            opened-close c1 v (write_end (pipe + 1)) at_v,
            a.two_more,
            b.two_more,
          ),
      ap length l.parent_is
          ∙ omega
              (arith, length-set l.t2 w none, length-set c1 v none, a.same_length, b.same_length),
    )

-- The table that a launch leaves with the parent, when it succeeds.
unfoldable pub after_launch : Launch → Option Table
after_launch (failed t) = none
after_launch (launched parent child out err) = some parent

-- Whether so many launches one behind the other succeed, each on the table that the one before
-- left.
unfoldable pub can_launch : ℕ → ℕ → Table → Bool
unfolding after_launch
can_launch zero pipe t = true
can_launch (suc n) pipe t = elim (after_launch (launch true pipe t)) [
  | none ↦ false
  | some u ↦ can_launch n (pipe + 2) u
]

first_free-some : (t : Table) → opened t < length t → (fd : ℕ) × first_free t ≡ some fd
unfolding first_free
first_free-some [] h = absurd (omega arith)
first_free-some (none ∷ t) h = (0, refl)
first_free-some (some x ∷ t) h =
    let (fd, e) = first_free-some t (omega (arith, h)) in (suc fd, ap (Option.map suc) e)

pipe_some :
    (pipe : ℕ) (t : Table)
    → opened t + 2 ≤ length t
    → (r w : ℕ) × (u : Table) × (make_pipe pipe t ≡ some (r, w, u))
pipe_some pipe t h =
    let (r, e) = first_free-some t (omega (arith, h)) in
    let free = first_free-IsFree t r e in
    let t' = set t r (some (read_end pipe)) in
    let more = opened-set t r (read_end pipe) free.within free.unused in
    let same = length-set t r (some (read_end pipe)) in
    let (w, f) = first_free-some t' (omega (arith, h, more, same)) in
    (r, w, set t' w (some (write_end pipe)), make_pipe_two pipe t r w e f)

launch_some :
    (pipe : ℕ) (t : Table)
    → opened t + 4 ≤ length t
    → (parent child : Table) × (out err : ℕ) × (launch true pipe t ≡ launched parent child out err)
launch_some pipe t h =
    let (r, w, t1, e) = pipe_some pipe t (omega (arith, h)) in
    let made = make_pipe-Made pipe t r w t1 e in
    let (r', w', t2, f) =
      pipe_some (pipe + 1) t1 (omega (arith, h, made.two_more, made.same_length)) in
    (_, _, r, r', launch_pipes true pipe t r w r' w' t1 t2 e f)

Launched-room :
    (pipe : ℕ) (t parent child : Table) (out err : ℕ)
    → Launched pipe t parent child out err
    → opened t + 4 ≤ length t
Launched-room pipe t parent child out err l = omega (
  arith,
  opened-le l.t2,
  l.out_made.two_more,
  l.err_made.two_more,
  l.out_made.same_length,
  l.err_made.same_length,
)

launch_full :
    (pipe : ℕ) (t : Table) (result : Launch)
    → launch true pipe t ≡ result
    → length t < opened t + 4
    → after_launch result ≡ none
unfolding after_launch
launch_full pipe t (failed u) e h = refl
launch_full pipe t (launched parent child out err) e h = absurd (
    omega (
      arith,
      h,
      Launched-room pipe t parent child out err
          (launch-Launched true pipe t parent child out err e),
    ))

can_launch_full :
    (n pipe : ℕ) (t : Table) → length t < opened t + 4 → can_launch (suc n) pipe t ≡ false
unfolding can_launch
can_launch_full n pipe t h = ground (arith, launch_full pipe t (launch true pipe t) refl h)

can_launch_step :
    (n pipe : ℕ) (t parent child : Table) (out err : ℕ)
    → launch true pipe t ≡ launched parent child out err
    → can_launch (suc n) pipe t ≡ can_launch n (pipe + 2) parent
unfolding can_launch after_launch
can_launch_step n pipe t parent child out err e = ground (arith, e)

can_launch_zero : (pipe : ℕ) (t : Table) → can_launch 0 pipe t ≡ true
unfolding can_launch
can_launch_zero pipe t = refl

launch_again :
    (n pipe : ℕ) (t : Table)
    → opened t + 4 ≤ length t
    → (u : Table) × (can_launch (suc n) pipe t ≡ can_launch n (pipe + 2) u)
      × (opened u ≡ opened t + 2)
      × (length u ≡ length t)
launch_again n pipe t room =
    let (parent, child, out, err, l) = launch_some pipe t room in
    let (more, same) =
      launch-opened pipe t parent child out err
        (launch-Launched true pipe t parent child out err l) in
    (parent, can_launch_step n pipe t parent child out err l, more, same)

can_launch_none :
    (n pipe : ℕ) (t : Table)
    → leb (opened t + 4) (length t) ≡ false
    → can_launch (suc n) pipe t ≡ leb (2 * n + 4 + opened t) (length t)
can_launch_none n pipe t e =
    let less : length t < opened t + 4 = ground (arith, e) in
    can_launch_full n pipe t less ∙ ground (arith, less)

-- Each launch leaves two more descriptors open for good: where fork never fails, a process can
-- launch n + 1 commands one behind the other just if 2 n + 4 places of its table are free at first,
-- so that after a bounded number of them every launch fails.
pub can_launch_lem :
    (n pipe : ℕ) (t : Table) → can_launch (suc n) pipe t ≡ leb (2 * n + 4 + opened t) (length t)
can_launch_lem zero pipe t = elim (Bool-cases (leb (opened t + 4) (length t))) [
  | inr e ↦ can_launch_none zero pipe t e
  | inl e ↦
      (let (u, step, more, same) = launch_again zero pipe t (ground (arith, e)) in
        step ∙ can_launch_zero (pipe + 2) u ∙ ground (arith, e))
]
can_launch_lem (suc m) pipe t = elim (Bool-cases (leb (opened t + 4) (length t))) [
  | inr e ↦ can_launch_none (suc m) pipe t e
  | inl e ↦
      (let (u, step, more, same) = launch_again (suc m) pipe t (ground (arith, e)) in
        step ∙ can_launch_lem m (pipe + 2) u ∙ ground (arith, more, same))
]
