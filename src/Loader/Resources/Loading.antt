-- ===== src/Loader/Resources/Loading.antt =====
-- The answers to the five calls of a load may come in any order.
use mathlib.Core.List.{Permᴰ}
use mathlib.Core.Path.{subst}
use art_platform.Common.{
  ℕ, suc, ◌+◌, ◌≡◌, ◌≢◌, refl, sym, ap, ◌∙◌, true, false, Option, none, some, List, [], ◌∷◌, arith,
  nat_beq_iff, length, All,
}
use art_platform.Model.Resources.{
  OpenShiftResource, ArtifactsResource, GitResource, PlatformResource, ProxyResource, Resources,
  all_resources,
}
use art_platform.Loader.Resources.Defs.{
  ResourcesLoader, ResourcesStore, Answer, open_shift_loaded, git_loaded, artifacts_loaded,
  platform_loaded, proxy_loaded, load, keep, ids, store, receive, no_resources,
}

-- The callbacks of one load, in the order in which they are called, and the stores that
-- `completed` is called with.
unfoldable pub receive_all :
    List Answer → ResourcesLoader → ℕ → ResourcesLoader × List ResourcesStore
unfolding receive
receive_all [] l count = (l, [])
receive_all (a ∷ answers) l count =
    let first = receive a l count in
    let rest = receive_all answers first.0 first.1 in (rest.0, given first.2 rest.1)
  where
    given : Option ResourcesStore → List ResourcesStore → List ResourcesStore
    given none stores = stores
    given (some s) stores = s ∷ stores

unfoldable pub reload : List Answer → ResourcesLoader → ResourcesLoader × List ResourcesStore
unfolding load receive_all
reload answers l = let begun = load l in receive_all answers begun.0 begun.1

keep_all : List Answer → Resources → Resources
keep_all [] r = r
keep_all (a ∷ answers) r = keep_all answers (keep a r)

abbrev kind : Answer → ℕ
kind (open_shift_loaded xs) = 0
kind (git_loaded xs) = 1
kind (artifacts_loaded xs) = 2
kind (platform_loaded xs) = 3
kind (proxy_loaded xs) = 4

abbrev Apart : List Answer → Type 0
Apart [] = Unit
Apart (a ∷ answers) = All (λ b. kind a ≢ kind b) answers × Apart answers

keep-keep : (a b : Answer) (r : Resources) → kind a ≢ kind b → keep a (keep b r) ≡ keep b (keep a r)
unfolding keep
keep-keep (open_shift_loaded xs) (open_shift_loaded ys) r ne = absurd (ne refl)
keep-keep (git_loaded xs) (git_loaded ys) r ne = absurd (ne refl)
keep-keep (artifacts_loaded xs) (artifacts_loaded ys) r ne = absurd (ne refl)
keep-keep (platform_loaded xs) (platform_loaded ys) r ne = absurd (ne refl)
keep-keep (proxy_loaded xs) (proxy_loaded ys) r ne = absurd (ne refl)
keep-keep (open_shift_loaded xs) (git_loaded ys) r ne = refl
keep-keep (open_shift_loaded xs) (artifacts_loaded ys) r ne = refl
keep-keep (open_shift_loaded xs) (platform_loaded ys) r ne = refl
keep-keep (open_shift_loaded xs) (proxy_loaded ys) r ne = refl
keep-keep (git_loaded xs) (open_shift_loaded ys) r ne = refl
keep-keep (git_loaded xs) (artifacts_loaded ys) r ne = refl
keep-keep (git_loaded xs) (platform_loaded ys) r ne = refl
keep-keep (git_loaded xs) (proxy_loaded ys) r ne = refl
keep-keep (artifacts_loaded xs) (open_shift_loaded ys) r ne = refl
keep-keep (artifacts_loaded xs) (git_loaded ys) r ne = refl
keep-keep (artifacts_loaded xs) (platform_loaded ys) r ne = refl
keep-keep (artifacts_loaded xs) (proxy_loaded ys) r ne = refl
keep-keep (platform_loaded xs) (open_shift_loaded ys) r ne = refl
keep-keep (platform_loaded xs) (git_loaded ys) r ne = refl
keep-keep (platform_loaded xs) (artifacts_loaded ys) r ne = refl
keep-keep (platform_loaded xs) (proxy_loaded ys) r ne = refl
keep-keep (proxy_loaded xs) (open_shift_loaded ys) r ne = refl
keep-keep (proxy_loaded xs) (git_loaded ys) r ne = refl
keep-keep (proxy_loaded xs) (artifacts_loaded ys) r ne = refl
keep-keep (proxy_loaded xs) (platform_loaded ys) r ne = refl

All-perm : (P : Answer → Type 0) {xs ys : List Answer} → Permᴰ xs ys → All P xs → All P ys
All-perm P Permᴰ.nil h = tt
All-perm P (Permᴰ.cons e p) h = (subst P e h.0, All-perm P p h.1)
All-perm P (Permᴰ.swap e e') h = (subst P e' h.1.0, (subst P e h.0, h.1.1))
All-perm P (Permᴰ.trans p q) h = All-perm P q (All-perm P p h)

Apart-perm : {xs ys : List Answer} → Permᴰ xs ys → Apart xs → Apart ys
Apart-perm Permᴰ.nil d = tt
Apart-perm (Permᴰ.cons {l₂ = ys} e p) d =
    (subst (λ a. All (λ b. kind a ≢ kind b) ys) e (All-perm _ p d.0), Apart-perm p d.1)
Apart-perm (Permᴰ.swap {a = a} {b = b} {b' = b'} {l = l} e e') d =
    subst (λ x. Apart (x ∷ b' ∷ l)) e'
      (subst (λ x. Apart (b ∷ x ∷ l)) e (((λ same. d.0.0 (sym same)), d.1.0), (d.0.1, d.1.1)))
Apart-perm (Permᴰ.trans p q) d = Apart-perm q (Apart-perm p d)

keep_all-perm :
    {xs ys : List Answer} → Permᴰ xs ys → Apart xs → (r : Resources) → keep_all xs r ≡ keep_all ys r
unfolding keep_all
keep_all-perm Permᴰ.nil d r = refl
keep_all-perm (Permᴰ.cons {a = a} {l₂ = ys} e p) d r =
    keep_all-perm p d.1 (keep a r) ∙ ap (λ x. keep_all ys (keep x r)) e
keep_all-perm (Permᴰ.swap {a = a} {b = b} {a' = a'} {b' = b'} {l = l} e e') d r =
    ap (keep_all l) (keep-keep b a r (λ same. d.0.0 (sym same)))
    ∙ (λ i. keep_all l (keep (e i) (keep (e' i) r)))
keep_all-perm (Permᴰ.trans p q) d r = keep_all-perm p d r ∙ keep_all-perm q (Apart-perm p d) r

length-perm : {xs ys : List Answer} → Permᴰ xs ys → length xs ≡ length ys
length-perm Permᴰ.nil = refl
length-perm (Permᴰ.cons e p) = ap suc (length-perm p)
length-perm (Permᴰ.swap e e') = refl
length-perm (Permᴰ.trans p q) = length-perm p ∙ length-perm q

-- The answers of a load, up to the last: none but the fifth completes it.
receive_all_lem :
    (a : Answer) (answers : List Answer) (object : ℕ) (r : Resources) (count : ℕ)
    → count + suc (length answers) ≡ 5
    → let kept = keep_all (a ∷ answers) r in
      receive_all (a ∷ answers) (record { loaded = false; object = object; resources = r }) count
      ≡ (
        record { loaded = true; object = object; resources = kept },
        record { ids = ids all_resources kept; resources = object } ∷ [],
      )
unfolding receive_all keep_all store
receive_all_lem a [] object r count e = ground (arith, nat_beq_iff (count + 1) 5)
receive_all_lem a (b ∷ answers) object r count e = ground (
  arith,
  nat_beq_iff (count + 1) 5,
  receive_all_lem b answers object (keep a r) (count + 1) (omega arith),
)

reload_five :
    (answers : List Answer) (l : ResourcesLoader)
    → length answers ≡ 5
    → let kept = keep_all answers no_resources in
      reload answers l ≡ (
        record { loaded = true; object = l.object; resources = kept },
        record { ids = ids all_resources kept; resources = l.object } ∷ [],
      )
unfolding reload
reload_five [] l e = absurd (omega arith)
reload_five (a ∷ answers) l e = receive_all_lem a answers l.object no_resources 0 (omega arith)

-- After a load and its five answers, in whatever order they come, the loader is loaded, holds each
-- answer in its own list and nothing from before, and has completed exactly once, with the
-- identifiers of those lists.
pub reload_lem :
    (o : List OpenShiftResource) (g : List GitResource) (a : List ArtifactsResource)
    (p : List PlatformResource) (x : List ProxyResource) (answers : List Answer)
    (l : ResourcesLoader)
    → Permᴰ
        (open_shift_loaded o
          ∷ git_loaded g
          ∷ artifacts_loaded a
          ∷ platform_loaded p
          ∷ proxy_loaded x
          ∷ [])
        answers
    → let r : Resources = record {
      open_shift = o;
      artifacts = a;
      git = g;
      platform = p;
      proxy = x;
    } in
      reload answers l ≡ (
        record { loaded = true; object = l.object; resources = r },
        record { ids = ids all_resources r; resources = l.object } ∷ [],
      )
unfolding keep_all keep
reload_lem o g a p x answers l perm =
    let kinds : Apart (
        open_shift_loaded o
        ∷ git_loaded g
        ∷ artifacts_loaded a
        ∷ platform_loaded p
        ∷ proxy_loaded x
        ∷ []) =
      ground arith in
    reload_five answers l (sym (length-perm perm))
    ∙ ap
        (λ kept. (
          record { loaded = true; object = l.object; resources = kept },
          record { ids = ids all_resources kept; resources = l.object } ∷ [],
        ))
        (sym (keep_all-perm perm kinds no_resources))
