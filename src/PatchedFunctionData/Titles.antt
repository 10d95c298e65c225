-- ===== src/PatchedFunctionData/Titles.antt =====
-- `shouldBePatched` against what it promises.
use Prim.Native.Nat.{bit_or}
use function_patcher_module.Base.{
  ℕ, bit_and, ◌≤◌, Bool, true, false, not, ◌||◌, ltb, refl, ◌∙◌, Bool-cases, if_true, if_false, ◌≡◌,
  ◌≢◌, ◌↔◌, ◌⊎◌, inl, inr, arith, contains,
}
use function_patcher_module.Platform.{Platform, done}
use function_patcher_module.Patch.{Patch}
use function_patcher_module.PatchedFunctionData.Title.{
  is_executable, query_title, should_be_patched,
}

-- The bits of a title's id that tell an update from a game, and the id of the game's update.
abbrev kind_of : ℕ → ℕ
kind_of id = bit_and id 0x0000000f00000000

abbrev update_of : ℕ → ℕ
update_of id = bit_or id 0x0000000e00000000

-- The version of the running title: a game's is its update's, where the console knows of one, and
-- otherwise the title's own.
pub data HasVersion (p : Platform) (version : ℕ) : Type 0 where
  updated :
      kind_of p.title_id ≡ 0
      → p.title_info (update_of p.title_id) ≡ (0, version)
      → HasVersion p version
  not_updated :
      kind_of p.title_id ≡ 0
      → (p.title_info (update_of p.title_id)).0 ≢ 0
      → p.title_info p.title_id ≡ (0, version)
      → HasVersion p version
  no_game : kind_of p.title_id ≢ 0 → p.title_info p.title_id ≡ (0, version) → HasVersion p version

query_title-HasVersion :
    (p : Platform) (version : ℕ) → HasVersion p version → query_title p ≡ (0, version)
unfolding query_title
query_title-HasVersion p version (updated game known) = ground arith
query_title-HasVersion p version (not_updated game none_known known) = ground arith
query_title-HasVersion p version (no_game other known) = ground arith

-- `shouldBePatched` returns where the running title has a version, and a patch is wanted exactly where
-- it is not for executables, or the running title is one of its titles and the version is in its
-- range.
pub should_be_patched_lem :
    (p : Platform) (d : Patch) (version : ℕ)
    → HasVersion p version
    → (wanted : Bool) × (should_be_patched p d ≡ done wanted)
      × ((wanted ≡ true) ↔ (
          (is_executable d.type ≡ false)
          ⊎ ((contains d.title_ids p.title_id ≡ true)
              × (d.title_version_min ≤ version)
              × (version ≤ d.title_version_max))))
unfolding should_be_patched
should_be_patched_lem p d version has =
    let e = query_title-HasVersion p version has in
    elim (Bool-cases (is_executable d.type)) [
      | inr library ↦ (true, if_false _ _ library, ((λ h. inl library), (λ h. refl)))
      | inl executable ↦ elim (Bool-cases (contains d.title_ids p.title_id)) [
        | inr other ↦ (false, if_true _ _ executable ∙ if_false _ _ other, ground arith)
        | inl listed ↦ (
          not (ltb version d.title_version_min || ltb d.title_version_max version),
          if_true _ _ executable ∙ if_true _ _ listed ∙ rw e refl,
          ground arith,
        )
      ]
    ]
