-- ===== src/Cli/Tests.antt =====
-- Runs of the collection of libraries, and its theorems at concrete inputs.
use ohos_rs.Common.{
  if◌then◌else◌, true, false, none, some, List, [], ◌∷◌, ◌++◌, map, ◌≡◌, refl, subst, arith, All,
  Bool-cases, inl, inr,
}
use ohos_rs.Common.Text.{Text, codes, text_eq, mem_text}
use ohos_rs.Common.Members.{IsDistinct}
use ohos_rs.Cli.Artifact.{
  Host, Attempt, done, failed, unresolved, RuntimeLibrary, Paths, resolve_runtime_libraries_with,
  clean_paths, so_files,
}
use ohos_rs.Cli.Indent.{correct_string_indent}
use ohos_rs.Cli.Indent.Stable.{correct_string_indent_twice}
use ohos_rs.Cli.TypeDef.{TypeDefKind, TypeDefLine, preprocess_type_def, group_of}
use ohos_rs.Common.Lines.{trim, unlines, lines_from}
use ohos_rs.Cli.Artifact.Needed.{parse_needed_libraries, header, closing}
use ohos_rs.Cli.Artifact.Needed.Print.{parse_needed_libraries-unlines}
use ohos_rs.Cli.Artifact.Provided.{soname_of, source_of, IsFound}
use ohos_rs.Cli.Artifact.Termination.{Lists, enough_fuel}
use ohos_rs.Cli.Artifact.Closure.{AllSupplied, libraries-AllSupplied}

abbrev host : Host
host = record {
  is_dir = λ p. true;
  is_file = λ p. mem_text p (codes "/d/liba.so" ∷ codes "/s/libc.so" ∷ []);
  canonicalize = λ p. some p;
  parent = λ p. some (codes "/o");
  needed = λ p.
      some (if text_eq p (codes "/o/libr.so") then codes "liba.so" ∷ codes "libc.so" ∷ [] else []);
}

abbrev paths : Paths
paths = record { dependency = codes "/d" ∷ []; runtime = []; system = codes "/s" ∷ [] }

abbrev roots : List Text
roots = codes "/o/libr.so" ∷ []

abbrev names : List Text
names = codes "liba.so" ∷ codes "libc.so" ∷ []

abbrev libs : List RuntimeLibrary
libs = record { source = codes "/d/liba.so"; soname = codes "liba.so" } ∷ []

found : resolve_runtime_libraries_with 3 host roots paths ≡ some (done libs)
unfolding resolve_runtime_libraries_with
found = refl

missing_library :
    resolve_runtime_libraries_with 3 host roots
      (record { dependency = []; runtime = []; system = [] })
    ≡ some (failed (unresolved (codes "liba.so") (codes "/o/libr.so")))
unfolding resolve_runtime_libraries_with
missing_library = refl

pick_root :
    (p : Text) (needed : List Text)
    → text_eq p (codes "/o/libr.so") ≡ true
    → host.needed p ≡ some needed
    → names ≡ needed
pick_root p needed root e = ground arith

pick_other :
    (p : Text) (needed : List Text)
    → text_eq p (codes "/o/libr.so") ≡ false
    → host.needed p ≡ some needed
    → [] ≡ needed
pick_other p needed other e = ground arith

host-Lists : Lists host names
host-Lists p needed e = elim (Bool-cases (text_eq p (codes "/o/libr.so"))) [
  | inl root ↦
      subst (All (λ n. mem_text n names ≡ true)) (pick_root p needed root e)
        (unfold mem_text text_eq in (refl, (refl, tt)))
  | inr other ↦ subst (All (λ n. mem_text n names ≡ true)) (pick_other p needed other e) tt
]

enough_fuel_example :
    (r : Attempt (List RuntimeLibrary)) × (resolve_runtime_libraries_with 3 host roots paths
      ≡ some r)
enough_fuel_example = enough_fuel host roots paths names host-Lists

libraries-AllSupplied_example :
    AllSupplied host (clean_paths host paths) libs (so_files roots)
    × AllSupplied host (clean_paths host paths) libs (map source_of libs)
    × IsDistinct (map soname_of libs)
    × All (IsFound host) libs
libraries-AllSupplied_example = libraries-AllSupplied 3 host roots paths libs found

parse_needed_libraries-unlines_example :
    parse_needed_libraries
      (unlines ((codes "File: x" ∷ []) ++ header ∷ ((codes "  liba.so" ∷ []) ++ closing ∷ [])))
    ≡ some (map trim (codes "  liba.so" ∷ []))
unfolding trim
parse_needed_libraries-unlines_example =
    parse_needed_libraries-unlines (codes "File: x" ∷ []) (codes "  liba.so" ∷ []) [] header closing
      (ground arith) ((λ e. cc), tt) refl (((λ e. cc), (λ e. cc), λ e. cc), tt) refl tt

abbrev line : TypeDefKind → Text → Text → TypeDefLine
line kind name def = record {
  kind = kind;
  name = name;
  original_name = none;
  def = def;
  js_doc = none;
  js_mod = none;
  extends = none;
}

abbrev class : TypeDefLine
class = line TypeDefKind.struct (codes "A") (codes "x: number")

abbrev parts : List TypeDefLine
parts =
    line TypeDefKind.fn (codes "f") (codes "f(): void")
    ∷ line TypeDefKind.impl (codes "A") (codes "a(): void")
    ∷ line TypeDefKind.impl (codes "B") (codes "lost")
    ∷ line TypeDefKind.impl (codes "A") (codes "b(): void")
    ∷ []

whole_class :
    group_of (codes "__TOP_LEVEL_MODULE__") (preprocess_type_def (class ∷ parts))
    ≡ line TypeDefKind.fn (codes "f") (codes "f(): void")
      ∷ line TypeDefKind.struct (codes "A") (codes "x: number\na(): void\nb(): void")
      ∷ []
unfolding preprocess_type_def group_of
whole_class = refl

abbrev declaration : Text
declaration = codes "export interface A {\n x: number\n}"

correct_string_indent_twice_example :
    correct_string_indent (correct_string_indent declaration 2) 2
    ≡ correct_string_indent declaration 2
correct_string_indent_twice_example = correct_string_indent_twice declaration 2

indented :
    correct_string_indent declaration 2 ≡ codes "  export interface A {\n    x: number\n  }\n"
unfolding correct_string_indent trim lines_from
indented = refl
