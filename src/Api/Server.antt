-- ===== src/Api/Server.antt =====
-- The `Server` of internal/api/router.go, its identifiers and tokens, and the Go library functions
-- that it calls, as parameters.
use Prim.Native.String
use Prim.Native.String.{[] as empty}
use hermes_manager.Prelude.{
  ℕ, ◌/◌, ◌%◌, String, Bool, Option, List, [], ◌∷◌, Exec, Error, eqb, if◌then◌else◌, pure, ◌>>=◌,
  on_error, Result, ok, err,
}
use hermes_manager.Storage.{Store, ℤ}
use hermes_manager.World.{World, rand_read}
use hermes_manager.Policy.{Rule}
use hermes_manager.Scheduler.{Scheduler}

-- Functions of Go's library, and of the packages that the program calls.
pub record Library : Type 0 where
  -- `sha256.Sum256`
  pub sha256 : String → String
  -- `strconv.FormatFloat` on a float64's bits
  pub format_float : ℕ → String
  -- `strconv.Quote`
  pub quote : String → String
  -- `Error()` of the errors that libraries make
  pub library_text : String → String
  -- `strconv.Atoi` and `time.Parse` with RFC 3339, without a value where they return an error
  pub atoi : String → Option ℤ
  pub parse_time : String → Option ℕ
  -- `strings.EqualFold`
  pub equal_fold : String → String → Bool

-- A nil scheduler or policy is `none`.
pub record Server : Type 0 where
  pub store : Store World
  pub scheduler : Option (Scheduler World)
  pub policy : Option (List Rule)

-- `NewServer`
abbrev pub new_server : Store World → Option (Scheduler World) → Option (List Rule) → Server
new_server store sched pol = record { store = store; scheduler = sched; policy = pol }

unfoldable pub hex_digit : ℕ → String
hex_digit d =
    if eqb d 0
    then "0"
    else if eqb d 1
    then "1"
    else if eqb d 2
    then "2"
    else if eqb d 3
    then "3"
    else if eqb d 4
    then "4"
    else if eqb d 5
    then "5"
    else if eqb d 6
    then "6"
    else if eqb d 7
    then "7"
    else if eqb d 8
    then "8"
    else if eqb d 9
    then "9"
    else if eqb d 10
    then "a"
    else if eqb d 11
    then "b"
    else if eqb d 12
    then "c"
    else if eqb d 13
    then "d"
    else if eqb d 14
    then "e"
    else "f"

-- `hex.EncodeToString`
unfoldable pub encode_hex : List ℕ → String
unfolding hex_digit
encode_hex [] = ""
encode_hex (b ∷ bs) =
    String.◌++◌ (hex_digit (b / 16)) (String.◌++◌ (hex_digit (b % 16)) (encode_hex bs))

-- `generateID`: `rand.Read` leaves the buffer of zeros as it is when it fails, and its error is
-- dropped.
abbrev pub id_bytes : Result (List ℕ) → List ℕ
id_bytes (ok bytes) = bytes
id_bytes (err e) = 0 ∷ 0 ∷ 0 ∷ 0 ∷ 0 ∷ 0 ∷ 0 ∷ 0 ∷ 0 ∷ 0 ∷ 0 ∷ 0 ∷ []

abbrev pub id_text : String → Result (List ℕ) → String
id_text prefix read = String.◌++◌ prefix (String.◌++◌ "-" (encode_hex (id_bytes read)))

unfoldable pub generate_id : String → Exec World String
generate_id prefix w = (ok (id_text prefix (rand_read w).0), (rand_read w).1)

-- A token: 32 bytes in hexadecimal digits.
unfoldable pub generate_token : (Error → Error) → Exec World String
generate_token about = do bytes ← on_error about rand_read; pure (encode_hex bytes)
