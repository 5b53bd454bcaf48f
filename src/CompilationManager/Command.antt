-- ===== src/CompilationManager/Command.antt =====
-- The command line of `buildCommand`, read back by `buildArgs` of the subprocess runner.
use capnp_ls.Prelude.{
  true, false, Option, some, List, [], ◌∷◌, ◌++◌, map, Bytes, bytes, ◌≡◌, ◌≢◌, refl, sym, ap, ◌∙◌,
  arith, ends_with, append_assoc, append-nil,
}
use capnp_ls.SubprocessRunner.{build_args}
use capnp_ls.SubprocessRunner.Args.{NoSpace, IsWord, AllWords, led, joined, build_args-joined}
use capnp_ls.CompilationManager.{
  CompileParams, compiler_of, contains, quoted, join_args, command_args, build_command,
}

-- An argument that is neither empty nor quoted.
abbrev pub IsBare : Bytes → Type 0
IsBare arg = IsWord arg × (contains 9 arg ≡ false)

abbrev pub AllBare : List Bytes → Type 0
AllBare [] = Unit
AllBare (arg ∷ args) = IsBare arg × AllBare args

contains-NoSpace : (arg : Bytes) → NoSpace arg → contains 32 arg ≡ false
unfolding contains
contains-NoSpace [] h = refl
contains-NoSpace (c ∷ cs) h = ground (arith, contains-NoSpace cs h.1)

quoted-IsBare : (arg : Bytes) → IsBare arg → quoted arg ≡ arg
unfolding quoted
quoted-IsBare arg h = ground (arith, contains-NoSpace arg h.0.1)

AllWords-AllBare : (args : List Bytes) → AllBare args → AllWords args
AllWords-AllBare [] h = tt
AllWords-AllBare (arg ∷ args) h = (h.0.0, AllWords-AllBare args h.1)

-- Quoted arguments, each behind a space, follow a text that is not empty.
join_args-led :
    (args : List Bytes) (text : Bytes)
    → text ≢ []
    → join_args text args ≡ text ++ led (map quoted args)
unfolding join_args
join_args-led [] text h = sym (append-nil text)
join_args-led (arg ∷ args) [] h = absurd (h refl)
join_args-led (arg ∷ args) (c ∷ cs) h =
    join_args-led args ((c ∷ cs) ++ (32 ∷ quoted arg)) (λ e. cc)
    ∙ append_assoc (c ∷ cs) (32 ∷ quoted arg) (led (map quoted args))

quoted-ne-nil : (arg : Bytes) → arg ≢ [] → quoted arg ≢ []
unfolding quoted
quoted-ne-nil arg h e = ground arith

join_args-joined :
    (arg : Bytes) (args : List Bytes)
    → arg ≢ []
    → join_args [] (arg ∷ args) ≡ joined (map quoted (arg ∷ args))
unfolding join_args
join_args-joined arg args h = join_args-led args (quoted arg) (quoted-ne-nil arg h)

map-quoted : (args : List Bytes) → AllBare args → map quoted args ≡ args
map-quoted [] h = refl
map-quoted (arg ∷ args) h = rw (quoted-IsBare arg h.0, map-quoted args h.1) refl

abbrev pub import_args : CompileParams → List Bytes
import_args params = map (λ path. bytes "-I" ++ path) params.import_paths

abbrev later_args : CompileParams → List Bytes
later_args params = bytes "compile" ∷ (import_args params ++ (bytes "-o-" ∷ params.file_name ∷ []))

-- The compiler that is used has a name that `buildCommand` takes.
pub record IsNamed (bundled : Option Bytes) (params : CompileParams) : Type 0 where
  pub name : ends_with (bytes "capnp") (compiler_of bundled params.compiler_path) ≡ true
  pub bare : IsBare (compiler_of bundled params.compiler_path)

build_command-joined :
    (bundled : Option Bytes) (params : CompileParams)
    → IsNamed bundled params
    → build_command bundled params
      ≡ some (joined (map quoted (command_args (compiler_of bundled params.compiler_path) params)))
unfolding build_command command_args
build_command-joined bundled params h = ground (
  arith,
  h.name,
  join_args-joined (compiler_of bundled params.compiler_path) (later_args params) h.bare.0.0,
)

-- Where no argument is empty or holds a space or a tab, and the compiler's path ends with "capnp",
-- the command that `buildCommand` writes is split into the compiler, "compile", an "-I" for each
-- import path, "-o-" and the file, in this order.
pub build_args-build_command :
    (bundled : Option Bytes) (params : CompileParams)
    → IsNamed bundled params
    → AllBare (command_args (compiler_of bundled params.compiler_path) params)
    → (command : Bytes) × (build_command bundled params ≡ some command)
      × (build_args command ≡ some (command_args (compiler_of bundled params.compiler_path) params))
build_args-build_command bundled params named bare =
    let args = command_args (compiler_of bundled params.compiler_path) params in
    (
      joined (map quoted args),
      build_command-joined bundled params named,
      ap (λ words. build_args (joined words)) (map-quoted args bare)
          ∙ build_args-joined args (AllWords-AllBare args bare),
    )

contains-append : (a b : Bytes) → contains 32 (a ++ (32 ∷ b)) ≡ true
unfolding contains
contains-append [] b = refl
contains-append (c ∷ cs) b = ground (arith, contains-append cs b)

-- The halves of a quoted argument with one space.
abbrev pub first_half : Bytes → Bytes
first_half a = b'"' ∷ a

abbrev pub second_half : Bytes → Bytes
second_half b = b ++ (b'"' ∷ [])

quoted_space : (a b : Bytes) → quoted (a ++ (32 ∷ b)) ≡ first_half a ++ (32 ∷ second_half b)
unfolding quoted
quoted_space a b = ground (arith, contains-append a b, append_assoc a (32 ∷ b) (b'"' ∷ []))

led-quoted :
    (before : List Bytes) (a b : Bytes)
    → AllBare before
    → led (map quoted (before ++ ((a ++ (32 ∷ b)) ∷ [])))
      ≡ led (before ++ (first_half a ∷ second_half b ∷ []))
led-quoted [] a b h = rw (quoted_space a b) (
    ap (λ t. 32 ∷ t)
      (append-nil (first_half a ++ (32 ∷ second_half b))
        ∙ ap (λ t. first_half a ++ (32 ∷ t)) (sym (append-nil (second_half b)))))
led-quoted (arg ∷ before) a b h = rw (quoted-IsBare arg h.0, led-quoted before a b h.1) refl

AllWords-append : (xs ys : List Bytes) → AllWords xs → AllWords ys → AllWords (xs ++ ys)
AllWords-append [] ys h k = k
AllWords-append (x ∷ xs) ys h k = (h.0, AllWords-append xs ys h.1 k)

NoSpace-append : (a b : Bytes) → NoSpace a → NoSpace b → NoSpace (a ++ b)
NoSpace-append [] b h k = k
NoSpace-append (c ∷ cs) b h k = (h.0, NoSpace-append cs b h.1 k)

second_half-ne-nil : (b : Bytes) → second_half b ≢ []
second_half-ne-nil [] e = cc
second_half-ne-nil (c ∷ cs) e = cc

second_half-IsWord : (b : Bytes) → NoSpace b → IsWord (second_half b)
second_half-IsWord b h = (second_half-ne-nil b, NoSpace-append b (b'"' ∷ []) h (omega arith))

compile-IsBare : IsBare (bytes "compile")
unfolding contains
compile-IsBare = (((λ e. cc), omega arith), refl)

args_of_space :
    (compiler : Bytes) (params : CompileParams) (a b : Bytes)
    → params.file_name ≡ a ++ (32 ∷ b)
    → command_args compiler params
      ≡ compiler
        ∷ bytes "compile"
        ∷ ((import_args params ++ (bytes "-o-" ∷ [])) ++ ((a ++ (32 ∷ b)) ∷ []))
unfolding command_args
args_of_space compiler params a b e = rw e (
    ap (λ args. compiler ∷ bytes "compile" ∷ args)
      (sym (append_assoc (import_args params) (bytes "-o-" ∷ []) ((a ++ (32 ∷ b)) ∷ []))))

joined_space :
    (compiler : Bytes) (before : List Bytes) (a b : Bytes)
    → IsBare compiler
    → AllBare before
    → joined (map quoted (compiler ∷ (before ++ ((a ++ (32 ∷ b)) ∷ []))))
      ≡ joined (compiler ∷ (before ++ (first_half a ∷ second_half b ∷ [])))
joined_space compiler before a b h k = rw (quoted-IsBare compiler h, led-quoted before a b k) refl

-- Where the file's name holds one space, the compiler's path ends with "capnp", and the other
-- arguments are not empty and hold neither spaces nor tabs, the quotes that `buildCommand` writes
-- do not keep the name together: the compiler gets its halves as two arguments, each with a
-- quote.
pub build_args-build_command_space :
    (bundled : Option Bytes) (params : CompileParams) (a b : Bytes)
    → IsNamed bundled params
    → params.file_name ≡ a ++ (32 ∷ b)
    → NoSpace a
    → NoSpace b
    → AllBare (import_args params ++ (bytes "-o-" ∷ []))
    → (command : Bytes) × (build_command bundled params ≡ some command)
      × (build_args command
          ≡ some (
              compiler_of bundled params.compiler_path
              ∷ bytes "compile"
              ∷ ((import_args params ++ (bytes "-o-" ∷ []))
                  ++ (first_half a ∷ second_half b ∷ []))))
build_args-build_command_space bundled params a b named e na nb bare =
    let compiler = compiler_of bundled params.compiler_path in
    let before = bytes "compile" ∷ (import_args params ++ (bytes "-o-" ∷ [])) in
    let words = compiler ∷ (before ++ (first_half a ∷ second_half b ∷ [])) in
    let all_bare : AllBare before = (compile-IsBare, bare) in
    let halves : AllWords (first_half a ∷ second_half b ∷ []) =
      (((λ e. cc), (omega arith, na)), (second_half-IsWord b nb, tt)) in
    (
      joined words,
      build_command-joined bundled params named
          ∙ ap (λ args. some (joined (map quoted args))) (args_of_space compiler params a b e)
          ∙ ap some (joined_space compiler before a b named.bare all_bare),
      build_args-joined words
          (named.bare.0, AllWords-append before _ (AllWords-AllBare before all_bare) halves),
    )
