-- ===== src/Options/Binds.antt =====
-- `--bind` in `JailOptions::new` of src/jail/options.rs: each description is `SOURCE:TARGET`.
use Prim.Native.Char.{code}
use eval_python.Prelude.{
  String, List, [], ◌∷◌, Outcome, ok, bail, panicked, ◌>>=◌, ltb, format, split, join,
  if◌then◌else◌,
}
use eval_python.Options.Types.{MountArgs, bind_rdonly}

-- `target[1..]`: it panics if the text is empty, and if its first character is longer than a byte
unfoldable pub without_first_byte : String → Outcome String
without_first_byte String.[] = panicked
without_first_byte (String.◌∷◌ c rest) = if ltb (code c) 128 then ok rest else panicked

-- `{:?}` of the description is a parameter: the text of an error message
unfoldable pub bind_of_parts : (String → String) → String → String → List String → Outcome MountArgs
unfolding without_first_byte
bind_of_parts debug rootfs bind (source ∷ target ∷ []) = do
  relative ← without_first_byte target
  ok (bind_rdonly source (join rootfs relative))
bind_of_parts debug rootfs bind parts =
    bail (format ("invalid bind description: " ∷ debug bind ∷ []))

unfoldable pub parse_bind : (String → String) → String → String → Outcome MountArgs
unfolding bind_of_parts split
parse_bind debug rootfs bind = bind_of_parts debug rootfs bind (split bind b':')

-- the loop over `args.bind`
unfoldable pub parse_binds : (String → String) → String → List String → Outcome (List MountArgs)
unfolding parse_bind
parse_binds debug rootfs [] = ok []
parse_binds debug rootfs (bind ∷ rest) = do
  mount ← parse_bind debug rootfs bind
  mounts ← parse_binds debug rootfs rest
  ok (mount ∷ mounts)
