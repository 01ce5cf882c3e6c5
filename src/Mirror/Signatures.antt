-- ===== src/Mirror/Signatures.antt =====
-- mirror/signature.go: the policy of signature modes. OpenPGP itself is a library.
use repo_sync.Base.{◌||◌, Option, none, some, [], ◌==◌, nat_eq, list_eq, if◌then◌else◌}
use repo_sync.Base.Bytes.{Bytes, lit, to_lower, trim_space}

abbrev pub SignatureMode : Type 0
SignatureMode = Bytes

abbrev pub signature_off : SignatureMode
signature_off = lit "off"

abbrev pub signature_if_present : SignatureMode
signature_if_present = lit "if-present"

abbrev pub signature_required : SignatureMode
signature_required = lit "required"

-- `none` is the error for an unknown name.
unfoldable pub parse_signature_mode : Bytes → Option SignatureMode
unfolding to_lower trim_space
parse_signature_mode value =
    let mode = to_lower (trim_space value) in
    if mode == signature_off || (mode == signature_if_present || mode == signature_required)
    then some mode
    else none

-- The mode that a run without one has.
unfoldable pub mode_or_off : SignatureMode → SignatureMode
mode_or_off mode = if mode == [] then signature_off else mode
