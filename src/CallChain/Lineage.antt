-- ===== src/CallChain/Lineage.antt =====
-- The lineage of nested skill calls (src/call_chain.rs).
use rust_claw_oc.Prelude.{
  ◌≡◌, ◌∙◌, refl, sym, ap, ℕ, suc, ◌+◌, String, Option, none, some, List, [], ◌∷◌, ◌++◌, map, push,
  last, length, length-append, any, ◌||◌, arith, str_eq, concat,
}
use mathlib.Core.List.{append-nil, append_assoc, map-append}
use rust_claw_oc.CallChain.{
  CallChainFrame, CallChainContext, append_frame, new_root, lineage_names, contains_skill,
  current_depth, total_calls_used, map_option,
}

-- One nested call: the UUID, the skill and its arguments.
abbrev pub Call : Type 0
Call = String × String × Option String

unfoldable pub append_frames : (String → String) → List Call → CallChainContext → CallChainContext
unfolding append_frame
append_frames digest [] c = c
append_frames digest ((uuid, name, args) ∷ calls) c =
    append_frames digest calls (append_frame digest uuid name args c)

-- The frames have the depths from `suc n` on, and each names the one before as its parent.
abbrev pub IsLinkedFrom : ℕ → Option String → List CallChainFrame → Type 0
IsLinkedFrom n parent [] = Unit {0}
IsLinkedFrom n parent (f ∷ fs) =
    (f.depth ≡ suc n) × (f.parent_call_id ≡ parent) × IsLinkedFrom (suc n) (some f.call_id) fs

-- The name that a next frame gets as its parent.
abbrev parent_of : Option String → List CallChainFrame → Option String
parent_of parent [] = parent
parent_of parent (f ∷ fs) = parent_of (some f.call_id) fs

push-IsLinkedFrom :
    (n : ℕ) (parent : Option String) (fs : List CallChainFrame) (f : CallChainFrame)
    → f.depth ≡ n + length fs + 1
    → f.parent_call_id ≡ parent_of parent fs
    → IsLinkedFrom n parent fs
    → IsLinkedFrom n parent (push fs f)
push-IsLinkedFrom n parent [] f d p h = (omega (arith, d), p, tt)
push-IsLinkedFrom n parent (g ∷ fs) f d p (h1, h2, h3) =
    (h1, h2, push-IsLinkedFrom (suc n) (some g.call_id) fs f (omega (arith, d)) p h3)

parent_of-last :
    (f : CallChainFrame) (fs : List CallChainFrame)
    → map_option (λ g. g.call_id) (last (f ∷ fs)) ≡ parent_of (some f.call_id) fs
parent_of-last f [] = refl
parent_of-last f (g ∷ fs) = parent_of-last g fs

parent_of-none :
    (fs : List CallChainFrame) → map_option (λ g. g.call_id) (last fs) ≡ parent_of none fs
parent_of-none [] = refl
parent_of-none (f ∷ fs) = parent_of-last f fs

append_frame-IsLinked :
    (digest : String → String) (uuid name : String) (args : Option String) (c : CallChainContext)
    → IsLinkedFrom 0 none c.lineage
    → IsLinkedFrom 0 none (append_frame digest uuid name args c).lineage
unfolding append_frame
append_frame-IsLinked digest uuid name args c h =
    push-IsLinkedFrom 0 none c.lineage
      (record {
        skill_name = name;
        call_id = concat ("call_" ∷ uuid ∷ []);
        parent_call_id = map_option (λ f. f.call_id) (last c.lineage);
        depth = length c.lineage + 1;
        args_digest = map_option digest args;
      })
      (omega arith) (parent_of-none c.lineage) h

append_frames-IsLinkedFrom :
    (digest : String → String) (calls : List Call) (c : CallChainContext)
    → IsLinkedFrom 0 none c.lineage
    → IsLinkedFrom 0 none (append_frames digest calls c).lineage
unfolding append_frames
append_frames-IsLinkedFrom digest [] c h = h
append_frames-IsLinkedFrom digest ((uuid, name, args) ∷ calls) c h =
    append_frames-IsLinkedFrom digest calls (append_frame digest uuid name args c)
      (append_frame-IsLinked digest uuid name args c h)

append_frames_names :
    (digest : String → String) (calls : List Call) (c : CallChainContext)
    → lineage_names (append_frames digest calls c) ≡ lineage_names c ++ map (λ call. call.1) calls
unfolding append_frames append_frame lineage_names
append_frames_names digest [] c = sym (append-nil (lineage_names c))
append_frames_names digest ((uuid, name, args) ∷ calls) c =
    append_frames_names digest calls (append_frame digest uuid name args c)
    ∙ ap (λ l. l ++ map (λ call. call.1) calls) (map-append (λ f. f.skill_name) c.lineage _)
    ∙ append_assoc (lineage_names c) (name ∷ []) (map (λ call. call.1) calls)

append_frames_counter :
    (digest : String → String) (calls : List Call) (c : CallChainContext)
    → ((append_frames digest calls c).total_calls ≡ c.total_calls)
      × ((append_frames digest calls c).root_session_id ≡ c.root_session_id)
      × (current_depth (append_frames digest calls c) ≡ current_depth c + length calls)
unfolding append_frames append_frame current_depth
append_frames_counter digest [] c = (refl, refl, omega arith)
append_frames_counter digest ((uuid, name, args) ∷ calls) c =
    let d = append_frame digest uuid name args c in
    let (counter, root, depth) = append_frames_counter digest calls d in
    (counter, root, omega (arith, depth, length-append c.lineage (_ ∷ [])))

contains_skill_names :
    (fs : List CallChainFrame) (skill : String)
    → any (λ f. str_eq f.skill_name skill) fs
      ≡ any (λ name. str_eq name skill) (map (λ f. f.skill_name) fs)
contains_skill_names [] skill = refl
contains_skill_names (f ∷ fs) skill =
    ap (λ b. str_eq f.skill_name skill || b) (contains_skill_names fs skill)

-- The lineage of nested calls, from a root on, is the list of the calls: it has their skills in
-- order, and finds a skill exactly if one of them is it; each frame has its place as its depth and
-- names the frame before as its parent, the first none; and all calls count on the counter of the
-- root.
pub append_frames-IsLinked :
    (digest : String → String) (calls : List Call) (counter : ℕ) (root skill : String)
    (counters : ℕ → ℕ)
    → IsLinkedFrom 0 none (append_frames digest calls (new_root counter root)).lineage
      × (lineage_names (append_frames digest calls (new_root counter root))
          ≡ map (λ call. call.1) calls)
      × (contains_skill (append_frames digest calls (new_root counter root)) skill
          ≡ any (λ name. str_eq name skill) (map (λ call. call.1) calls))
      × (current_depth (append_frames digest calls (new_root counter root)) ≡ length calls)
      × (total_calls_used counters (append_frames digest calls (new_root counter root))
          ≡ counters counter)
unfolding new_root contains_skill total_calls_used lineage_names current_depth
append_frames-IsLinked digest calls counter root skill counters =
    let c = append_frames digest calls (new_root counter root) in
    let names = append_frames_names digest calls (new_root counter root) in
    let (shared, same, depth) = append_frames_counter digest calls (new_root counter root) in
    (
      append_frames-IsLinkedFrom digest calls (new_root counter root) tt,
      names,
      contains_skill_names c.lineage skill ∙ ap (any (λ name. str_eq name skill)) names,
      omega (arith, depth),
      ap counters shared,
    )
