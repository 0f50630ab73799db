-- ===== src/Proto/Path.antt =====
-- crates/proto/src/types.rs: names and paths. A name is its bytes, a path the names from the export's
-- root; `IsName` is what `Name::new` makes sure of.
use jackalopefs.Common.{
  ℕ, ◌+◌, ◌-◌, ◌≤◌, ◌≡◌, ◌≢◌, refl, sym, ap, ◌∙◌, Bool, false, ◌&&◌, ◌||◌, Option, none, some, List,
  [], ◌∷◌, ◌++◌, arith, ◌==◌, ltb, if◌then◌else◌, ◌>>=◌, length, length-append, sum_by, All,
}

abbrev pub name_max : ℕ
name_max = 255

abbrev pub path_max : ℕ
path_max = 4096

pub data ErrorName : Type 0 where
  empty too_long bad_byte dot : ErrorName

pub data Named : Type 0 where
  ok : List ℕ → Named
  err : ErrorName → Named

abbrev pub is_bad : ℕ → Bool
is_bad b = b == b'/' || b == 0

unfoldable pub any_bad : List ℕ → Bool
any_bad [] = false
any_bad (b ∷ bs) = is_bad b || any_bad bs

-- `.` or `..`.
unfoldable pub is_dots : List ℕ → Bool
is_dots (a ∷ []) = a == b'.'
is_dots (a ∷ b ∷ []) = a == b'.' && b == b'.'
is_dots _ = false

-- `Name::new`.
unfoldable pub new_name : List ℕ → Named
unfolding any_bad is_dots
new_name bytes =
    if length bytes == 0
    then err empty
    else if ltb name_max (length bytes)
    then err too_long
    else if any_bad bytes
    then err bad_byte
    else if is_dots bytes
    then err dot
    else ok bytes

-- A name by its bytes: 1 to 255 of them, none a slash or zero, and not just one or two dots.
pub record IsName (bytes : List ℕ) : Type 0 where
  pub some_bytes : 1 ≤ length bytes
  pub short : length bytes ≤ 255
  pub clean : All (λ b. (b ≢ 0x2f) × (b ≢ 0)) bytes
  pub no_dot : bytes ≢ 0x2e ∷ []
  pub no_dots : bytes ≢ 0x2e ∷ 0x2e ∷ []

any_bad-clean : (bytes : List ℕ) → any_bad bytes ≡ false → All (λ b. (b ≢ 0x2f) × (b ≢ 0)) bytes
unfolding any_bad
any_bad-clean [] h = tt
any_bad-clean (b ∷ bs) h =
    (((λ e. ground arith), (λ e. ground arith)), any_bad-clean bs (ground arith))

clean-any_bad : (bytes : List ℕ) → All (λ b. (b ≢ 0x2f) × (b ≢ 0)) bytes → any_bad bytes ≡ false
unfolding any_bad
clean-any_bad [] h = refl
clean-any_bad (b ∷ bs) h = ground (arith, h.0.0, h.0.1, clean-any_bad bs h.1)

pub is_dots-no_dots :
    (bytes : List ℕ) → is_dots bytes ≡ false → (bytes ≢ 0x2e ∷ []) × (bytes ≢ 0x2e ∷ 0x2e ∷ [])
unfolding is_dots
is_dots-no_dots [] h = (λ e. cc, λ e. cc)
is_dots-no_dots (a ∷ []) h = (λ e. ground arith, λ e. ground arith)
is_dots-no_dots (a ∷ b ∷ []) h = (λ e. ground arith, λ e. ground arith)
is_dots-no_dots (a ∷ b ∷ c ∷ bs) h = (λ e. cc, λ e. cc)

pub no_dots-is_dots :
    (bytes : List ℕ) → bytes ≢ 0x2e ∷ [] → bytes ≢ 0x2e ∷ 0x2e ∷ [] → is_dots bytes ≡ false
unfolding is_dots
no_dots-is_dots [] h k = refl
no_dots-is_dots (a ∷ []) h k = ground arith
no_dots-is_dots (a ∷ b ∷ []) h k = ground arith
no_dots-is_dots (a ∷ b ∷ c ∷ bs) h k = refl

-- `Path::byte_len`.
unfoldable pub byte_len : List (List ℕ) → ℕ
byte_len names = sum_by length names + (length names - 1)

-- `Path::from_names`; `none` is `ErrorPathTooLong`.
unfoldable pub from_names : List (List ℕ) → Option (List (List ℕ))
unfolding byte_len
from_names names = if ltb path_max (byte_len names) then none else some names

-- `Path::join`.
unfoldable pub join : List (List ℕ) → List ℕ → Option (List (List ℕ))
join names name = from_names (names ++ name ∷ [])

-- `Path::split_last`.
unfoldable pub split_last : List (List ℕ) → Option (List (List ℕ) × List ℕ)
split_last [] = none
split_last (n ∷ []) = some ([], n)
split_last (n ∷ m ∷ names) = do (parent, last) ← split_last (m ∷ names); some (n ∷ parent, last)

-- The loop of `Path::to_os_string`, after its first name.
rest_to_bytes : List (List ℕ) → List ℕ
rest_to_bytes [] = []
rest_to_bytes (n ∷ names) = b'/' ∷ (n ++ rest_to_bytes names)

-- `Path::to_os_string`.
unfoldable pub to_bytes : List (List ℕ) → List ℕ
unfolding rest_to_bytes
to_bytes [] = []
to_bytes (n ∷ names) = n ++ rest_to_bytes names

split_last-append :
    (xs : List (List ℕ)) (name : List ℕ) → split_last (xs ++ name ∷ []) ≡ some (xs, name)
unfolding split_last
split_last-append [] name = refl
split_last-append (x ∷ []) name = refl
split_last-append (x ∷ y ∷ xs) name = rw (split_last-append (y ∷ xs) name)

new_name-IsName : (bytes kept : List ℕ) → new_name bytes ≡ ok kept → (kept ≡ bytes) × IsName bytes
unfolding new_name
new_name-IsName bytes kept e =
    let dots : is_dots bytes ≡ false = ground arith in
    let (no_dot, no_dots) = is_dots-no_dots bytes dots in
    (
      ground arith,
      record {
        some_bytes = ground arith;
        short = ground arith;
        clean = any_bad-clean bytes (ground arith);
        no_dot = no_dot;
        no_dots = no_dots;
      },
    )

IsName-new_name : (bytes : List ℕ) → IsName bytes → new_name bytes ≡ ok bytes
unfolding new_name
IsName-new_name bytes h =
    let clean = clean-any_bad bytes h.clean in
    let dots = no_dots-is_dots bytes h.no_dot h.no_dots in
    ground (arith, h.some_bytes, h.short, clean, dots)

-- `Name::new` accepts exactly the names, of 1 to 255 bytes, with no slash and no zero byte, and neither
-- of the two dots, and keeps them as they are.
pub new_name_lem :
    (bytes : List ℕ)
    → ((kept : List ℕ) → new_name bytes ≡ ok kept → (kept ≡ bytes) × IsName bytes)
      × (IsName bytes → new_name bytes ≡ ok bytes)
new_name_lem bytes = (λ kept e. new_name-IsName bytes kept e, λ h. IsName-new_name bytes h)

length-rest_to_bytes :
    (names : List (List ℕ)) → length (rest_to_bytes names) ≡ sum_by length names + length names
unfolding rest_to_bytes
length-rest_to_bytes [] = refl
length-rest_to_bytes (n ∷ names) =
    omega (arith, length-append n (rest_to_bytes names), length-rest_to_bytes names)

-- `byte_len` is the length of the rendered path.
pub length-to_bytes : (names : List (List ℕ)) → length (to_bytes names) ≡ byte_len names
unfolding to_bytes byte_len
length-to_bytes [] = refl
length-to_bytes (n ∷ names) =
    omega (arith, length-append n (rest_to_bytes names), length-rest_to_bytes names)

-- A path that was joined is within the limit when rendered, and splits into what it was joined from.
pub split_last-join :
    (names : List (List ℕ)) (name : List ℕ) (path : List (List ℕ))
    → join names name ≡ some path
    → (length (to_bytes path) ≤ path_max) × (split_last path ≡ some (names, name))
unfolding join from_names
split_last-join names name path e =
    let same : names ++ name ∷ [] ≡ path = ground arith in
    (rw (length-to_bytes path) (ground arith), rw (← same) (split_last-append names name))

-- The bytes up to the first slash, and from it on.
before : List ℕ → List ℕ
before [] = []
before (b ∷ bs) = if b == b'/' then [] else b ∷ before bs

after : List ℕ → List ℕ
after [] = []
after (b ∷ bs) = if b == b'/' then b ∷ bs else after bs

before-append :
    (n : List ℕ) (names : List (List ℕ))
    → any_bad n ≡ false
    → (before (n ++ rest_to_bytes names) ≡ n)
      × (after (n ++ rest_to_bytes names) ≡ rest_to_bytes names)
unfolding before after any_bad rest_to_bytes
before-append [] [] h = (refl, refl)
before-append [] (m ∷ names) h = (refl, refl)
before-append (b ∷ n) names h = ground (arith, before-append n names)

abbrev pub AreNames : List (List ℕ) → Type 0
AreNames = All IsName

-- What follows the first name of a rendered path determines it.
names_apart :
    (x y : List ℕ) (xs ys : List (List ℕ))
    → any_bad x ≡ false
    → any_bad y ≡ false
    → x ++ rest_to_bytes xs ≡ y ++ rest_to_bytes ys
    → (x ≡ y) × (rest_to_bytes xs ≡ rest_to_bytes ys)
names_apart x y xs ys hx hy e =
    let (bx, ax) = before-append x xs hx in
    let (by, ay) = before-append y ys hy in (sym bx ∙ ap before e ∙ by, sym ax ∙ ap after e ∙ ay)

rest_to_bytes-injective :
    (xs ys : List (List ℕ))
    → AreNames xs
    → AreNames ys
    → rest_to_bytes xs ≡ rest_to_bytes ys
    → xs ≡ ys
unfolding rest_to_bytes
rest_to_bytes-injective [] [] hx hy e = refl
rest_to_bytes-injective [] (y ∷ ys) hx hy e = cc
rest_to_bytes-injective (x ∷ xs) [] hx hy e = cc
rest_to_bytes-injective (x ∷ xs) (y ∷ ys) hx hy e =
    let (same, rest) =
      names_apart x y xs ys (clean-any_bad x hx.0.clean) (clean-any_bad y hy.0.clean)
        (ground arith) in
    cc (same, rest_to_bytes-injective xs ys hx.1 hy.1 rest)

-- Two paths of names that are rendered alike are one path.
pub to_bytes-injective :
    (xs ys : List (List ℕ)) → AreNames xs → AreNames ys → to_bytes xs ≡ to_bytes ys → xs ≡ ys
unfolding to_bytes
to_bytes-injective [] [] hx hy e = refl
to_bytes-injective [] ((b ∷ y) ∷ ys) hx hy e = cc
to_bytes-injective [] ([] ∷ ys) hx hy e = absurd (omega (arith, hy.0.some_bytes))
to_bytes-injective ((b ∷ x) ∷ xs) [] hx hy e = cc
to_bytes-injective ([] ∷ xs) [] hx hy e = absurd (omega (arith, hx.0.some_bytes))
to_bytes-injective (x ∷ xs) (y ∷ ys) hx hy e =
    let (same, rest) =
      names_apart x y xs ys (clean-any_bad x hx.0.clean) (clean-any_bad y hy.0.clean) e in
    cc (same, rest_to_bytes-injective xs ys hx.1 hy.1 rest)
