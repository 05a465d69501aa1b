-- ===== src/Html/Walked.antt =====
-- src/markdown.rs, `run_with`: the walk that renders the body, on links that form a tree.
use blackfriday_2_rust.Base.{
  ℕ, zero, suc, ◌<◌, ◌≡◌, ◌≢◌, refl, sym, ap, ◌∙◌, Bool, true, false, ◌&&◌, Option, none, some,
  some-eq-some, List, [], ◌∷◌, ◌++◌, append_assoc, append-nil, arith, bind-at, bind-some, length,
  if◌then◌else◌, Bytes, ◌>>=◌,
}
use blackfriday_2_rust.Flags.{FlagSet, intersects, skip_images}
use blackfriday_2_rust.NodeType.{NodeType}
use blackfriday_2_rust.Node.{NodeId, Arena, get}
use blackfriday_2_rust.Node.Links.{at, IsLinked}
use blackfriday_2_rust.Node.Walker.{
  WalkStatus, Walker, go_to_next, skip_children, terminate, Visit, step, advance, walk,
}
use blackfriday_2_rust.Html.{Sink}
use blackfriday_2_rust.Html.Nodes.{is_type}
use blackfriday_2_rust.Html.Render.{render_node}
use blackfriday_2_rust.Html.Render.Total.{status, HasDestination, render_node-Renders}
use blackfriday_2_rust.Html.Document.{render_walk}

-- The visits rendered one after the other.
unfoldable pub render_visits : Arena → List Visit → Sink → Option Sink
unfolding render_node
render_visits arena [] s = some s
render_visits arena ((id, entering) ∷ vs) s =
    render_node arena id entering s >>= λ p. render_visits arena vs p.1

-- What the renderer answers to the walk at a node.
abbrev pub answer : FlagSet → Arena → NodeId → Bool → WalkStatus
answer flags arena id entering = status flags (at arena id).node_type

-- The output of `s'` begins with that of `s`, and the parameters are the same.
abbrev pub Extends : Sink → Sink → Type 0
Extends s s' =
    ((t : Bytes) × (s'.written ≡ s.written ++ t)) × (s'.renderer.params ≡ s.renderer.params)

abbrev goes : WalkStatus → Bool
goes terminate = false
goes _ = true

if-goes : (c : Bool) → goes (if c then skip_children else go_to_next) ≡ true
if-goes true = refl
if-goes false = refl

status-goes : (flags : FlagSet) (t : NodeType) → goes (status flags t) ≡ true
unfolding status
status-goes flags t = if-goes (is_type t NodeType.image && intersects flags skip_images)

get-lt : (arena : Arena) (i : NodeId) → get arena i ≢ none → i < length arena
get-lt [] i h = absurd (h refl)
get-lt (n ∷ arena) zero h = omega arith
get-lt (n ∷ arena) (suc i) h = omega (arith, get-lt arena i h)

-- A visit that does not end the walk advances it, from a node that is there.
advance-lt :
    (arena : Arena) (id root : NodeId) (entering : Bool) (st : WalkStatus) (w : Walker)
    → goes st ≡ true
    → advance arena st (record { current = some id; root = root; entering = entering }) ≡ some w
    → id < length arena
unfolding advance step
advance-lt arena id root entering terminate w g e = cc
advance-lt arena id root entering skip_children w g e =
    let (node, got, rest) = bind-some (get arena id) _ e in get-lt arena id (λ n. cc (n, got))
advance-lt arena id root entering go_to_next w g e =
    let (node, got, rest) = bind-some (get arena id) _ e in get-lt arena id (λ n. cc (n, got))

module _ (arena : Arena) (flags : FlagSet) where
  -- One round of `Arena::walk` with the renderer's answers.
  walk-round :
      (fuel : ℕ) (id root : NodeId) (entering : Bool) (st : WalkStatus)
      → goes st ≡ true
      → answer flags arena id entering ≡ st
      → walk
          (suc fuel)
          (answer flags arena)
          arena
          (record { current = some id; root = root; entering = entering })
        ≡ (advance arena st (record { current = some id; root = root; entering = entering })
            >>= λ w'.
                walk fuel (answer flags arena) arena w' >>= λ rest. some ((id, entering) ∷ rest))
  unfolding walk
  walk-round fuel id root entering terminate g e = cc
  walk-round fuel id root entering skip_children g e = rw (e, walk) refl
  walk-round fuel id root entering go_to_next g e = rw (e, walk) refl

  -- What the walk over the links renders is what rendering its visits in order gives.
  pub render_walk-visits :
      (fuel : ℕ) (root : NodeId) (cur : Option NodeId) (entering : Bool) (s : Sink)
      (vs : List Visit)
      → IsLinked arena
      → ((i : NodeId) → HasDestination (at arena i))
      → s.renderer.params.flags ≡ flags
      → walk fuel
          (answer flags arena)
          arena
          (record { current = cur; root = root; entering = entering })
        ≡ some vs
      → (s' : Sink) × (render_walk fuel arena
            (record { current = cur; root = root; entering = entering })
            s
          ≡ some s')
        × (render_visits arena vs s ≡ some s')
        × Extends s s'
  unfolding render_walk render_visits walk
  render_walk-visits zero root cur entering s vs linked dest same e = cc
  render_walk-visits (suc fuel) root none entering s vs linked dest same e = (
    s,
    refl,
    ap (λ vs. render_visits arena vs s) (sym (some-eq-some e)),
    (([], sym (append-nil s.written)), refl),
  )
  render_walk-visits (suc fuel) root (some id) entering s vs linked dest same e =
      let st = status flags (at arena id).node_type in
      let g = status-goes flags (at arena id).node_type in
      let (w', a, e') =
        bind-some (advance arena st _) _ (sym (walk-round fuel id root entering st g refl) ∙ e) in
      let (rest, r, e'') = bind-some (walk fuel (answer flags arena) arena w') _ e' in
      let (t, f, grown) =
        render_node-Renders arena id entering s linked (advance-lt arena id root entering st w' g a)
          (dest id) in
      let f' : render_node arena id entering s ≡ some (st, t) =
        f ∙ ap (λ flags. some (status flags (at arena id).node_type, t)) same in
      let (s', walked, visited, more) =
        render_walk-visits fuel w'.root w'.current w'.entering t rest linked dest
          (ap (λ p. p.flags) grown.1 ∙ same) r in
      (
        s',
        bind-at _ f' ∙ bind-at _ a ∙ walked,
        ap (λ vs. render_visits arena vs s) (sym (some-eq-some e'')) ∙ bind-at _ f' ∙ visited,
        (
          (
            grown.0.0 ++ more.0.0,
            more.0.1 ∙ ap (λ w. w ++ more.0.0) grown.0.1 ∙ append_assoc s.written _ _,
          ),
          more.1 ∙ grown.1,
        ),
      )
