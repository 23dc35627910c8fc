-- ===== src/Flight/Errors.antt =====
-- internal/remoteflight/errors.go.
use terraform_provider_enos.Prelude.{List, [], ◌∷◌, Bytes}
use terraform_provider_enos.Go.{Err, wrap, text, end}

abbrev wrap_message : Err → Bytes → Err
wrap_message err [] = err
wrap_message err (c ∷ m) = wrap "%w: %s" (text (c ∷ m) end) err

-- WrapErrorWith: empty messages are left out.
abbrev pub wrap_error_with : Err → List Bytes → Err
wrap_error_with err [] = err
wrap_error_with err (m ∷ msgs) = wrap_error_with (wrap_message err m) msgs
