-- ===== src/App/Start.antt =====
-- The tasks that main of init/main.c starts.
use multi_task_app.Prelude.{
  ℕ, ◌≡◌, refl, ◌∙◌, ap, true, some, List, [], ◌∷◌, ◌++◌, String, append_assoc, append-nil, sym,
}
use multi_task_app.Alloc.{Allocator, Libc}
use multi_task_app.Msg.{Net}
use multi_task_app.Task.{Task}
use multi_task_app.Task.Life.{Params, task_size, start, os_task_create}
use multi_task_app.Task.Spawned.{queued, os_task_create_lem}
use multi_task_app.App.{task_names, main_params, create_all, main}

-- The names of the tasks, in order.
abbrev pub names : List Task → List String
names [] = []
names (t ∷ ts) = t.name ∷ names ts

names_append : (ts us : List Task) → names (ts ++ us) ≡ names ts ++ names us
names_append [] us = refl
names_append (t ∷ ts) us = ap (λ l. t.name ∷ l) (names_append ts us)

abbrev pub params_names : List Params → List String
params_names [] = []
params_names (c ∷ cs) = c.name ∷ params_names cs

module _ (m : Allocator) (l : Libc m) where
  open m use {Store}

  -- malloc always gives memory.
  abbrev pub Gives : Type 0
  Gives = (s : Store) → (self : ℕ) × (t : Store) × (l.libc_malloc task_size s ≡ some (self, t))

  task_create-names :
      Gives
      → (c : Params) (n : Net Store)
      → names (os_task_create m l true c n).1.tasks ≡ names n.tasks ++ c.name ∷ []
  task_create-names g c n =
      let (self, t, e) = g n.store in
      rw (os_task_create_lem m l true c n self t e)
        (unfold start in unfold queued in names_append n.tasks _)

  create_all-names :
      Gives
      → (cs : List Params) (n : Net Store)
      → names (create_all m l (λ c. true) cs n).tasks ≡ names n.tasks ++ params_names cs
  unfolding create_all
  create_all-names g [] n = sym (append-nil (names n.tasks))
  create_all-names g (c ∷ cs) n =
      create_all-names g cs (os_task_create m l true c n).1
      ∙ ap (λ x. x ++ params_names cs) (task_create-names g c n)
      ∙ append_assoc (names n.tasks) (c.name ∷ []) (params_names cs)

  -- main starts its nine tasks in order, if memory is given and the threads can be created: their
  -- names follow those of the tasks before them in the list.
  pub main-names :
      Gives
      → (routine : String → ℕ) (n : Net Store)
      → names (main m l routine (λ c. true) n).tasks ≡ names n.tasks ++ task_names
  unfolding main
  main-names g routine n = create_all-names g (main_params routine) n
