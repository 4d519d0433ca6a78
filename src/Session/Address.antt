-- ===== src/Session/Address.antt =====
-- src/VNetWork/VAsyncServer.hpp: `get_address` of `session`; src/VNetWork/VUser.cpp: `GetSessionAddress`. The text of
-- the peer's address is a parameter, and `none` where `remote_endpoint` throws.
use model_lib.Common.{ℕ, Option, none, some, List, [], ◌∷◌, Bool, false, if◌then◌else◌}

abbrev pub VString : Type 0
VString = List ℕ

-- A `const char *`: null, or into a string object, which lives or is gone.
pub data CString : Type 0 where
  null : CString
  into : Bool → VString → CString

-- `address_ = ….to_string().c_str()`: the temporary that it points into ends with the statement.
unfoldable pub assign_temporary : Option VString → CString
assign_temporary none = CString.null
assign_temporary (some text) = CString.into false text

-- "0.0.0.0"
abbrev pub no_address : VString
no_address = 48 ∷ 46 ∷ 48 ∷ 46 ∷ 48 ∷ 46 ∷ 48 ∷ []

-- `VString(address_ ? address_ : "0.0.0.0")`; `none` is a read of a string that is gone.
unfoldable pub copy_address : CString → Option VString
copy_address CString.null = some no_address
copy_address (CString.into lives text) = if lives then some text else none

unfoldable pub get_address : Option VString → Option VString
unfolding assign_temporary copy_address
get_address remote = copy_address (assign_temporary remote)

-- `GetSessionAddress`, and `GetSessionAddressEx` of a plain pointer.
unfoldable pub get_session_address : (ℕ → Option VString) → Option ℕ → Option VString
unfolding get_address
get_session_address remote none = some no_address
get_session_address remote (some s) = get_address (remote s)
