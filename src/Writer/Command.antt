-- ===== src/Writer/Command.antt =====
-- crates/mcptracer-proxy/src/session_writer.rs: the server command as session metadata shows it. An
-- argument is its code points.
pub mod Stable
use mcptracer.Common.{
  ℕ, Bool, true, false, ◌&&◌, Option, none, some, List, [], ◌∷◌, ◌++◌, ◌==◌, if◌then◌else◌, codes,
}
use mcptracer.Redact.Keys.{redacted_placeholder, starts_with}
use mcptracer.Redact.Lint.Patterns.{Text, before, after, is_sensitive_text}

-- `format!("{key}={REDACTED_PLACEHOLDER}")`
abbrev pub masked : Text → Text
masked key = key ++ (b'=' ∷ codes redacted_placeholder)

-- One argument where the one before does not ask for its redaction, and whether it asks for the
-- redaction of the next.
unfoldable pub render_arg : Text → Text × Bool
render_arg arg =
    let kept : Text × Bool = (arg, starts_with arg (b'-' ∷ []) && is_sensitive_text arg) in
    elim (after b'=' arg) [
      | some value ↦
          if is_sensitive_text (before b'=' arg) then (masked (before b'=' arg), false) else kept
      | none ↦ kept
    ]

-- The loop; the flag is `redact_next`.
unfoldable pub render_args : Bool → List Text → List Text
render_args redact_next [] = []
render_args true (arg ∷ args) = codes redacted_placeholder ∷ render_args false args
render_args false (arg ∷ args) = (render_arg arg).0 ∷ render_args (render_arg arg).1 args

-- `join(" ")`
abbrev pub join : List Text → Text
join [] = []
join (s ∷ []) = s
join (s ∷ t ∷ ts) = s ++ (b' ' ∷ join (t ∷ ts))

unfoldable pub redact_server_command : List Text → Text
redact_server_command server_args = join (render_args false server_args)
