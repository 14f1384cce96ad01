-- ===== src/Promotion/Update/Pushes.antt =====
-- An update that returns no error has pushed once, and one with an error has pushed nothing.
use keptn_gitops_operator.Base.{
  String, ◌<>◌, refl, Option, none, some, List, [], ◌∷◌, arith, GoError,
}
use keptn_gitops_operator.Cluster.{
  GitRepositoryConfig, temp_dir, clone, worktree, git_add, commit, remove_all, mkdir_all, walk,
  WalkEntry, Env, World, Exec, perform,
}
use keptn_gitops_operator.Cluster.Pushing.{
  IsPushed, IsPushed-failed, Pushing, Pushing-after, Silent, Silent-call, Silent-after,
}
use keptn_gitops_operator.Promotion.Update.{
  ValuesYaml, or_return, move_to, move_entry, move_entries, move_files, perform_file_move,
  replace_in_file, get_values, merge_files, write_values, write_merged, merge_helm_values,
  push_and_remove, commit_version, move_version, update_git_repo,
}

module _ (E : Env) where
  Silent-move_entry : (d s : String) (e : WalkEntry) → Silent E (move_entry E d s e)
  unfolding move_entry move_to perform
  Silent-move_entry d s e w = (ground arith, λ s e. ground arith)

  Silent-or_return :
      (o : Option GoError) (m : Exec E (Option GoError)) → Silent E m → Silent E (or_return E o m)
  Silent-or_return none m h = h
  Silent-or_return (some e) m h = λ w. (refl, λ s q. absurd (ground arith))

  Silent-move_entries : (d s : String) (l : List WalkEntry) → Silent E (move_entries E d s l)
  unfolding move_entries
  Silent-move_entries d s [] = λ w. (refl, λ s q. absurd (ground arith))
  Silent-move_entries d s (e ∷ l) =
      Silent-after E (move_entry E d s e) _ (Silent-move_entry d s e)
        λ r. Silent-or_return r _ (Silent-move_entries d s l)

  Silent-move_files : (source d s : String) → Silent E (move_files E source d s)
  unfolding move_files
  Silent-move_files source d s =
      Silent-after E (perform (mkdir_all source)) _ (Silent-call E _ (λ r. refl)) λ r.
        Silent-or_return r _ (
          Silent-after E (perform (walk source)) _ (Silent-call E _ (λ r. refl))
            (Silent-move_entries d s))

  Silent-perform_file_move :
      (s stage from to : String) → Silent E (perform_file_move E s stage from to)
  unfolding perform_file_move
  Silent-perform_file_move s stage from to =
      Silent-after E _ _ (Silent-move_files _ _ s)
        λ r. Silent-or_return r _ (Silent-move_files _ _ s)

  Silent-replace_in_file : (f s r : String) → Silent E (replace_in_file E f s r)
  unfolding replace_in_file perform
  Silent-replace_in_file f s r w = (ground arith, λ s e. ground arith)

  Pushing-or_return :
      (o : Option GoError) (m : Exec E (Option GoError))
      → Pushing E 1 m
      → Pushing E 1 (or_return E o m)
  Pushing-or_return none m h = h
  Pushing-or_return (some e) m h = λ w. IsPushed-failed E 1 w w _ (omega arith)

  module _ (Y : ValuesYaml) where
    Silent-merge_helm_values : (s stage d : String) → Silent E (merge_helm_values E Y s stage d)
    unfolding merge_helm_values merge_files get_values write_merged write_values perform
    Silent-merge_helm_values s stage d w = (ground arith, λ s e. ground arith)

    Pushing-push_and_remove :
        (c : GitRepositoryConfig) (m s : String) → Pushing E 1 (push_and_remove E Y c m s)
    unfolding push_and_remove perform
    Pushing-push_and_remove c m s w = record {
      all = λ h. ground arith;
      fewer = λ e h. ground arith;
      returns = λ s h. ground arith;
    }

    Pushing-commit_version :
        (c : GitRepositoryConfig) (s v cv m d : String)
        → Pushing E 1 (commit_version E Y c s v cv m d)
    unfolding commit_version
    Pushing-commit_version c s v cv m d = Pushing-after E 1 _ _ (Silent-replace_in_file _ _ v) λ r.
        Pushing-after E 1 (perform (git_add d)) _ (Silent-call E _ (λ r. refl)) λ r.
          Pushing-after E 1 (perform (commit d _)) _ (Silent-call E _ (λ r. refl))
            λ r. Pushing-or_return r _ (Pushing-push_and_remove c m d)

    Pushing-move_version :
        (c : GitRepositoryConfig) (stage s v cv m d : String)
        → Pushing E 1 (move_version E Y c stage s v cv m d)
    unfolding move_version
    Pushing-move_version c stage s v cv m d =
        Pushing-after E 1 (perform (remove_all _)) _ (Silent-call E _ (λ r. refl)) λ r.
          Pushing-after E 1 _ _ (Silent-merge_helm_values s stage m) λ r.
            Pushing-after E 1 _ _ (Silent-perform_file_move s stage m d)
              λ r. Pushing-or_return r _ (Pushing-commit_version c s v cv m d)

    -- A run of UpdateGitRepo neither panics nor ends the process; it has pushed exactly
    -- once where it returns no error, and nothing where it returns one.
    pub update_git_repo-IsPushed :
        (c : GitRepositoryConfig) (stage s v cv : String) (w : World E)
        → IsPushed E 1 w
            (update_git_repo E Y c stage s v cv w).0
            (update_git_repo E Y c stage s v cv w).1
    unfolding update_git_repo
    update_git_repo-IsPushed c stage s v cv =
        Pushing-after E 1 (perform (temp_dir "temp_dir_master")) _ (Silent-call E _ (λ r. refl))
          λ m.
            Pushing-after E 1 (perform (temp_dir ("temp_dir_" <> stage))) _
              (Silent-call E _ (λ r. refl))
              λ d. Pushing-after E 1 (perform (clone c _ m)) _ (Silent-call E _ (λ r. refl)) λ r.
                Pushing-or_return r _ (
                  Pushing-after E 1 (perform (clone c _ d)) _ (Silent-call E _ (λ r. refl)) λ r.
                    Pushing-or_return r _ (
                      Pushing-after E 1 (perform (worktree d)) _ (Silent-call E _ (λ r. refl))
                        λ r. Pushing-or_return r _ (Pushing-move_version c stage s v cv m d)))
