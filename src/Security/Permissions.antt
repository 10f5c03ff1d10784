-- ===== src/Security/Permissions.antt =====
-- What the permissions of src/security.c answer after they were set.
use tabla_rusa_os.Base.{
  ◌<◌, ◌≡◌, refl, Text, not, none, arith, Option-cases, inl, inr, length, get_or-modify_self,
  find_index, find_index-lt, find_index-modify, find_index-modify_new, str_eq_refl, str_copy,
  str_copy_fits, ok,
}
use tabla_rusa_os.Security.Table.{
  Decision, Permission, Sec, no_permission, is_permission, granted, app_len, resource_len,
  security_set_permission, security_check_permission,
}

-- A permission that was set with success is the answer of the next check, if the two names fit
-- their arrays.
pub set-check :
    (app resource : Text) (decision : Decision) (s : Sec)
    → length app < app_len
    → length resource < resource_len
    → (security_set_permission app resource decision s).0 ≡ ok tt
    → (security_check_permission app resource (security_set_permission app resource decision s).1).0
      ≡ decision
unfolding security_set_permission security_check_permission
set-check app resource decision s short short' e =
    let test = is_permission app resource in
    elim (Option-cases (find_index test s.permissions)) [
      | inr (i, q) ↦
          let f = λ (p : Permission). record p { decision = decision } in
          ground (
            arith,
            q,
            find_index-modify test f i s.permissions no_permission refl,
            get_or-modify_self f i s.permissions no_permission
                (find_index-lt test s.permissions i q),
          )
      | inl q ↦ elim (Option-cases (find_index (λ (p : Permission). not p.active) s.permissions)) [
        | inl a ↦ absurd (ground (arith, q, a))
        | inr (i, a) ↦
            let f = λ (p : Permission). granted app resource decision in
            let h = find_index-lt (λ (p : Permission). not p.active) s.permissions i a in
            ground (
              arith,
              q,
              a,
              str_copy_fits app app_len short,
              str_copy_fits resource resource_len short',
              str_eq_refl app,
              str_eq_refl resource,
              find_index-modify_new test f i s.permissions no_permission q h,
              get_or-modify_self f i s.permissions no_permission h,
            )
      ]
    ]

-- A permission that was set with success for a name of any length is the answer of the next check
-- for the name cut to 23 bytes, if neither name had an entry for that resource before and the
-- name of the resource fits its array. Two applications whose names agree in 23 bytes share it.
pub set-check_cut :
    (app resource : Text) (decision : Decision) (s : Sec)
    → length resource < resource_len
    → find_index (is_permission app resource) s.permissions ≡ none
    → find_index (is_permission (str_copy app app_len) resource) s.permissions ≡ none
    → (security_set_permission app resource decision s).0 ≡ ok tt
    → (security_check_permission
        (str_copy app app_len)
        resource
        (security_set_permission app resource decision s).1).0
      ≡ decision
unfolding security_set_permission security_check_permission
set-check_cut app resource decision s short q q' e =
    elim (Option-cases (find_index (λ (p : Permission). not p.active) s.permissions)) [
      | inl a ↦ absurd (ground (arith, q, a))
      | inr (i, a) ↦
          let f = λ (p : Permission). granted app resource decision in
          let h = find_index-lt (λ (p : Permission). not p.active) s.permissions i a in
          ground (
            arith,
            q,
            q',
            a,
            str_copy_fits resource resource_len short,
            str_eq_refl (str_copy app app_len),
            str_eq_refl resource,
            find_index-modify_new (is_permission (str_copy app app_len) resource) f i s.permissions
                no_permission q' h,
            get_or-modify_self f i s.permissions no_permission h,
          )
    ]
