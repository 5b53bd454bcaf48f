-- ===== src/SubprocessRunner/Args.antt =====
-- `buildArgs`: it ends, its tokens hold no space, and it reads back words joined by spaces.
use capnp_ls.Prelude.{
  ℕ, zero, suc, ◌<◌, ◌≤◌, ◌+◌, some, List, [], ◌∷◌, ◌++◌, ◌≡◌, ◌≢◌, refl, arith, Bytes, length,
  length-append, ap, ap₂, ◌∙◌, List-cases, inl, inr,
}
use native.Mathlib.Numerals.{add-one}
use capnp_ls.SubprocessRunner.{
  space, skip_spaces, token, after_token, add_arg, split_args, build_args,
}

abbrev pub NoSpace : Bytes → Type 0
NoSpace [] = Unit
NoSpace (c ∷ cs) = (c ≢ space) × NoSpace cs

-- An argument that the split can return: not empty, and with no space.
abbrev pub IsWord : Bytes → Type 0
IsWord w = (w ≢ []) × NoSpace w

abbrev pub AllWords : List Bytes → Type 0
AllWords [] = Unit
AllWords (w ∷ ws) = IsWord w × AllWords ws

-- The words that follow others, each behind a space.
abbrev pub led : List Bytes → Bytes
led [] = []
led (w ∷ ws) = space ∷ (w ++ led ws)

-- The words with a space between each two.
abbrev pub joined : List Bytes → Bytes
joined [] = []
joined (w ∷ ws) = w ++ led ws

length-after_token : (s : Bytes) → length (after_token s) ≤ length s
unfolding after_token
length-after_token [] = omega arith
length-after_token (c ∷ cs) = ground (arith, length-after_token cs)

length-skip_spaces : (s : Bytes) → length (skip_spaces s) ≤ length s
unfolding skip_spaces
length-skip_spaces [] = omega arith
length-skip_spaces (c ∷ cs) = ground (arith, length-skip_spaces cs)

skip_spaces_head : (s : Bytes) (c : ℕ) (cs : Bytes) → skip_spaces s ≡ c ∷ cs → c ≢ space
unfolding skip_spaces
skip_spaces_head [] c cs e = cc
skip_spaces_head (x ∷ xs) c cs e = ground (arith, skip_spaces_head xs c cs)

token-NoSpace : (s : Bytes) → NoSpace (token s)
unfolding token
token-NoSpace [] = tt
token-NoSpace (c ∷ cs) = ground (arith, token-NoSpace cs)

token-ne-nil : (c : ℕ) (cs : Bytes) → c ≢ space → token (c ∷ cs) ≢ []
unfolding token
token-ne-nil c cs ne e = ground arith

length-after_token_word :
    (c : ℕ) (cs : Bytes) → c ≢ space → length (after_token (c ∷ cs)) ≤ length cs
unfolding after_token
length-after_token_word c cs ne = ground (arith, length-after_token cs)

split_args_done : (fuel : ℕ) (s : Bytes) → skip_spaces s ≡ [] → split_args (suc fuel) s ≡ some []
unfolding split_args
split_args_done fuel s e = ground arith

split_args_step :
    (fuel : ℕ) (s : Bytes) (c : ℕ) (cs : Bytes)
    → skip_spaces s ≡ c ∷ cs
    → split_args (suc fuel) s ≡ add_arg (token (c ∷ cs)) (split_args fuel (after_token (c ∷ cs)))
unfolding split_args
split_args_step fuel s c cs e = ground arith

split_args_total :
    (fuel : ℕ) (s : Bytes)
    → length s < fuel
    → (args : List Bytes) × (split_args fuel s ≡ some args) × AllWords args
unfolding add_arg
split_args_total zero s h = absurd (omega arith)
split_args_total (suc fuel) s h = elim (List-cases (skip_spaces s)) [
  | inl e ↦ ([], split_args_done fuel s e, tt)
  | inr (c, cs, e) ↦
      let ne = skip_spaces_head s c cs e in
      let short = length-skip_spaces s in
      let (args, rest, words) =
        split_args_total fuel (after_token (c ∷ cs))
          (omega (arith, length-after_token_word c cs ne, ap length e, short)) in
      (
        token (c ∷ cs) ∷ args,
        split_args_step fuel s c cs e ∙ ap (add_arg (token (c ∷ cs))) rest,
        ((token-ne-nil c cs ne, token-NoSpace (c ∷ cs)), words),
      )
]

-- `buildArgs` ends on every command, and returns words.
pub build_args_total :
    (command : Bytes) → (args : List Bytes) × (build_args command ≡ some args) × AllWords args
unfolding build_args
build_args_total command = split_args_total (length command + 1) command (omega arith)

token-led : (w : Bytes) (ws : List Bytes) → NoSpace w → token (w ++ led ws) ≡ w
unfolding token
token-led [] [] h = refl
token-led [] (v ∷ ws) h = refl
token-led (c ∷ w) ws h = ground (arith, token-led w ws h.1)

after_token-led : (w : Bytes) (ws : List Bytes) → NoSpace w → after_token (w ++ led ws) ≡ led ws
unfolding after_token
after_token-led [] [] h = refl
after_token-led [] (v ∷ ws) h = refl
after_token-led (c ∷ w) ws h = ground (arith, after_token-led w ws h.1)

skip_spaces_word : (w r : Bytes) → IsWord w → skip_spaces (w ++ r) ≡ w ++ r
unfolding skip_spaces
skip_spaces_word [] r h = absurd (h.0 refl)
skip_spaces_word (c ∷ w) r h = ground arith

-- A word in front, behind as many spaces as there are, is the first argument.
split_args_word :
    (fuel : ℕ) (s w : Bytes) (ws : List Bytes)
    → IsWord w
    → skip_spaces s ≡ w ++ led ws
    → split_args (suc fuel) s ≡ add_arg w (split_args fuel (led ws))
split_args_word fuel s [] ws h e = absurd (h.0 refl)
split_args_word fuel s (c ∷ w) ws h e =
    split_args_step fuel s c (w ++ led ws) e
    ∙ ap₂ (λ a r. add_arg a (split_args fuel r)) (token-led (c ∷ w) ws h.1)
        (after_token-led (c ∷ w) ws h.1)

length-word : (w : Bytes) → IsWord w → 0 < length w
length-word [] h = absurd (h.0 refl)
length-word (c ∷ w) h = omega arith

split_args-led :
    (fuel : ℕ) (ws : List Bytes)
    → AllWords ws
    → length (led ws) < fuel
    → split_args fuel (led ws) ≡ some ws
unfolding add_arg
split_args-led zero ws h f = absurd (omega arith)
split_args-led (suc fuel) [] h f = split_args_done fuel [] (unfold skip_spaces in refl)
split_args-led (suc fuel) (w ∷ ws) h f =
    split_args_word fuel (space ∷ (w ++ led ws)) w ws h.0
      (unfold skip_spaces in skip_spaces_word w (led ws) h.0)
    ∙ ap (add_arg w) (split_args-led fuel ws h.1 (omega (arith, length-append w (led ws))))

-- A command of words that are not empty and hold no space, joined by single spaces, is read back
-- as those words.
pub build_args-joined :
    (words : List Bytes) → AllWords words → build_args (joined words) ≡ some words
build_args-joined [] h = unfold build_args skip_spaces in refl
build_args-joined (w ∷ ws) h =
    unfold build_args in
    (let s = w ++ led ws in
      ap (λ n. split_args n s) (add-one (length s))
      ∙ split_args_word (length s) s w ws h.0 (skip_spaces_word w (led ws) h.0)
      ∙ unfold add_arg in
        rw (
          split_args-led (length s) ws h.1
            (omega (arith, length-append w (led ws), length-word w h.0))))
