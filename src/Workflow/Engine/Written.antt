-- ===== src/Workflow/Engine/Written.antt =====
-- Actions of the engine that write at most the row of one node, by a legal move. An exception or a
-- commit halfway changes nothing in this.
use lark_plat.Prelude.{◌≡◌, ◌⊎◌, inl, refl, Bool, true, false, List, if◌then◌else◌}
use lark_plat.Errors.{Result, ok, err}
use lark_plat.Session.{Session, Db, pure, lift, gets, modify, continue, ◌>>=◌, ◌>>◌}
use lark_plat.Workflow.Model.{NodeRun}
use lark_plat.Workflow.Engine.Port.{RunDb}
use lark_plat.Workflow.Engine.Moves.{Moves}
use lark_plat.Workflow.Engine.Advance.{replace_node, set_node}

-- the rows `after` are the rows `before`, or those with one legal move of n
pub data Written (n : NodeRun) (before after : List NodeRun) : Type 0 where
  same : after ≡ before → Written n before after
  wrote : (m : NodeRun) → Moves n m → after ≡ replace_node m before → Written n before after

module _ {W : Type 0} where
  -- an action that writes at most the row of n
  pub record Advances {A : Type 0} (n : NodeRun) (m : Db (RunDb W) A) : Type 0 where
    pub live : (s : Session (RunDb W)) → Written n s.live.nodes (m s).1.live.nodes
    pub saved :
        (s : Session (RunDb W))
        → ((m s).1.saved.nodes ≡ s.saved.nodes) ⊎ Written n s.live.nodes (m s).1.saved.nodes

  -- an action that writes no row
  record Reads {A : Type 0} (m : Db (RunDb W) A) : Type 0 where
    live : (s : Session (RunDb W)) → (m s).1.live.nodes ≡ s.live.nodes
    saved :
        (s : Session (RunDb W))
        → ((m s).1.saved.nodes ≡ s.saved.nodes) ⊎ ((m s).1.saved.nodes ≡ s.live.nodes)

  pub Advances-pure : {A : Type 0} (n : NodeRun) (a : A) → Advances n (pure {S = RunDb W} a)
  unfolding pure
  Advances-pure n a = record { live = λ s. same refl; saved = λ s. inl refl }

  pub Advances-write :
      {A : Type 0} (n m : NodeRun) (a : A)
      → Moves n m
      → Advances n (modify {S = RunDb W} (set_node m) >> pure a)
  unfolding ◌>>=◌ set_node
  Advances-write n m a h = record { live = λ s. wrote m h refl; saved = λ s. inl refl }

  pub Advances-if :
      {A : Type 0} (n : NodeRun) (b : Bool) (x y : Db (RunDb W) A)
      → Advances n x
      → Advances n y
      → Advances n (if b then x else y)
  Advances-if n true x y hx hy = hx
  Advances-if n false x y hx hy = hy

  pub Advances-lift :
      {A B : Type 0} (n : NodeRun) (r : Result A) (f : A → Db (RunDb W) B)
      → ((a : A) → Advances n (f a))
      → Advances n (lift r >>= f)
  Advances-lift n (ok a) f h = unfold ◌>>=◌ in h a
  Advances-lift n (err e) f h =
      unfold ◌>>=◌ in record { live = λ s. same refl; saved = λ s. inl refl }

  pub Advances-gets :
      {A B : Type 0} (n : NodeRun) (g : RunDb W → A) (f : A → Db (RunDb W) B)
      → ((a : A) → Advances n (f a))
      → Advances n (gets g >>= f)
  unfolding ◌>>=◌
  Advances-gets n g f h = record {
    live = λ s. (h (g s.live)).live s;
    saved = λ s. (h (g s.live)).saved s;
  }

  pub continue-pure :
      {A B : Type 0} (r : Result A) (b : B) (s : Session (RunDb W))
      → (continue r (λ _. pure b) s).1 ≡ s
  unfolding pure
  continue-pure (ok a) b s = refl
  continue-pure (err e) b s = refl

  pub Advances-after :
      {A B : Type 0} (n : NodeRun) (m : Db (RunDb W) A) (b : B)
      → Advances n m
      → Advances n (m >> pure b)
  unfolding ◌>>=◌
  Advances-after n m b h = record {
    live = λ s. rw (continue-pure (m s).0 b (m s).1) (h.live s);
    saved = λ s. rw (continue-pure (m s).0 b (m s).1) (h.saved s);
  }

  pub continue-id : (r : Result Bool) (s : Session (RunDb W)) → (continue r (λ b. pure b) s).1 ≡ s
  unfolding pure
  continue-id (ok a) s = refl
  continue-id (err e) s = refl
