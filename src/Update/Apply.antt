-- ===== src/Update/Apply.antt =====
-- crates/abora-update/src/apply.rs: what `aborad` asks the root helper for, what the helper reports,
-- and the rules both check. JSON is outside; a file is read through its metadata.
pub mod Requests
use abora_framework.Common.{
  ℕ, ◌*◌, ◌/◌, Bool, true, false, not, ◌&&◌, ◌||◌, List, [], ◌∷◌, ◌++◌, map, Option, none, some,
  Result, ok, err, Text, codes, len, length, is_empty, all, find, is_ascii_alphanumeric, ltb, leb,
  ◌==◌, if◌then◌else◌,
}
use abora_framework.Common.Decimal.{show}
use abora_framework.Update.Host.{valid_package_name}

abbrev pub max_packages : ℕ
max_packages = 2000

-- ten minutes, in nanoseconds
abbrev pub max_request_age : ℕ
max_request_age = 10 * 60 * 1000000000

abbrev pub max_file_bytes : ℕ
max_file_bytes = 1024 * 1024

pub record ApplyRequest : Type 0 where
  pub id : Text
  pub requested_at : Text
  pub requested_by : Text
  pub packages : List Text

pub record ApplyResult : Type 0 where
  pub id : Text
  pub started_at : Text
  pub finished_at : Text
  pub succeeded : Bool
  pub packages : List Text
  pub note : Option Text
  pub reboot_started : Bool

abbrev pub is_id_char : ℕ → Bool
is_id_char c = is_ascii_alphanumeric c || c == b'-'

unfoldable pub valid_request_id : Text → Bool
valid_request_id id = (leb 8 (len id) && leb (len id) 64) && all is_id_char id

-- An invalid name is not echoed, only its length.
pub data RequestError : Type 0 where
  bad_id no_packages too_many_packages : RequestError
  bad_package : ℕ → RequestError

unfoldable pub validate_request : ApplyRequest → Result (Unit {0}) RequestError
validate_request request =
    if not (valid_request_id request.id)
    then err bad_id
    else if is_empty request.packages
    then err no_packages
    else if ltb max_packages (length request.packages)
    then err too_many_packages
    else elim (find (λ p. not (valid_package_name p)) request.packages) [
      | none ↦ ok tt
      | some bad ↦ err (bad_package (len bad))
    ]

abbrev pub fixed_args : List Text
fixed_args =
    codes "-y"
    ∷ codes "--no-remove"
    ∷ codes "-o"
    ∷ codes "Dpkg::Options::=--force-confold"
    ∷ codes "-o"
    ∷ codes "Dpkg::Options::=--force-confdef"
    ∷ codes "install"
    ∷ codes "--only-upgrade"
    ∷ codes "--"
    ∷ []

unfoldable pub install_args : List Text → List Text
install_args packages = fixed_args ++ packages

-- What `symlink_metadata` and `read` see at a path: the age is since the last modification, in
-- nanoseconds, and `none` if it is unknown or the time lies in the future.
pub record FileNode : Type 0 where
  pub is_file : Bool
  pub size : ℕ
  pub age : Option ℕ
  pub content : Result (List ℕ) Text

pub data ReadError : Type 0 where
  io : Text → ReadError
  not_regular too_large too_old : ReadError

-- `unwrap_or(Duration::ZERO)`
abbrev age_or_zero : Option ℕ → ℕ
age_or_zero none = 0
age_or_zero (some age) = age

abbrev is_stale : Option ℕ → FileNode → Bool
is_stale none node = false
is_stale (some max_age) node = ltb max_age (age_or_zero node.age)

abbrev read_content : Result (List ℕ) Text → Result (List ℕ) ReadError
read_content (ok bytes) = ok bytes
read_content (err e) = err (io e)

-- `err` is a failed `symlink_metadata`.
unfoldable pub read_regular_file : Result FileNode Text → Option ℕ → Result (List ℕ) ReadError
read_regular_file (err e) max_age = err (io e)
read_regular_file (ok node) max_age =
    if not node.is_file
    then err not_regular
    else if ltb max_file_bytes node.size
    then err too_large
    else if is_stale max_age node
    then err too_old
    else read_content node.content

-- `format!` of a read error at a path, under an age limit
pub read_message : Text → ℕ → ReadError → Text
read_message path max_age (io e) = path ++ codes ": " ++ e
read_message path max_age not_regular = path ++ codes " is not a regular file"
read_message path max_age too_large =
    path ++ codes " is larger than " ++ show max_file_bytes ++ codes " bytes"
read_message path max_age too_old =
    path ++ codes " is older than " ++ show (max_age / 1000000000 / 60) ++ codes " minutes"

pub request_message : RequestError → Text
request_message bad_id = codes "request id is not valid"
request_message no_packages = codes "request names no packages"
request_message too_many_packages =
    codes "request names more than " ++ show max_packages ++ codes " packages"
request_message (bad_package n) =
    codes "request contains an invalid package name (" ++ show n ++ codes " bytes)"
