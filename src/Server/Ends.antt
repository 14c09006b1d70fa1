-- ===== src/Server/Ends.antt =====
-- The model of the server's command loop (src/server/processor.c) never uses up fuel above the
-- number of words.
use sharedgl.Prelude.{
  Option, ℕ, zero, suc, ◌≤◌, ◌<◌, ◌≡◌, ◌≢◌, refl, List, [], ◌∷◌, length, ◌==◌, if◌then◌else◌, drop,
  arith, Bool-cases, ◌⊎◌, inl, inr,
}
use sharedgl.Layout.{int_sign}
use sharedgl.Commands.Cmd
use sharedgl.Commands.Decode.{Decoded, call, off_stream, other}
use sharedgl.Server.{
  Effect, Server, Step, next, fault, unmodelled, out_of_fuel, upload, exec_internal, as_effect,
  exec_gl, no_case, gl_call, exec, run,
}
use sharedgl.Server.Within.{
  Within, ran, stopped, passed, if-Within, cases, exec_object-Within, exec_stencil-Within,
  exec_lighting-Within, exec_names-Within, exec_evaluator-Within, exec_uniform-Within,
  exec_feedback-Within, exec_framebuffer-Within, exec_sampler-Within, exec_packed-Within,
  exec_pipeline-Within, exec_texture-Within, exec_image-Within, exec_storage-Within,
  exec_attrib-Within, exec_named-Within, exec_barrier-Within, exec_raster-Within,
  exec_matrix-Within, exec_scale-Within, exec_coordinate-Within, exec_secondary-Within,
  exec_values-Within, exec_sub_image-Within, exec_texels-Within,
}

length-drop : (n : ℕ) (ws : List ℕ) → length (drop n ws) ≤ length ws
length-drop zero ws = omega arith
length-drop (suc n) [] = omega arith
length-drop (suc n) (w ∷ ws) = omega (arith, length-drop n ws)

-- The uploaded words stand on the stream.
upload-Within : (s : Server) (ws : List ℕ) → Within ws (upload s ws)
unfolding upload
upload-Within s [] = stopped
upload-Within s (c ∷ ws) =
    if-Within _ (ran _ _ (omega (arith, length-drop (if int_sign c then 0 else c) ws))) stopped

exec_internal-Within :
    (total : ℕ) (s : Server) (cmd : ℕ) (ws : List ℕ) → Within ws (exec_internal total s cmd ws)
unfolding exec_internal
exec_internal-Within total s cmd ws = search (cases, upload-Within) depth 80

as_effect-Within :
    {A : Type 0} {ws : List ℕ} {d : Decoded A} {rest : Decoded Effect} (f : A → Effect)
    → Within ws d
    → Within ws rest
    → Within ws (as_effect f d rest)
as_effect-Within f (ran a ws h) r = ran (f a) ws h
as_effect-Within f stopped r = stopped
as_effect-Within f passed r = r

ruleset groups = (
  as_effect-Within, passed, exec_object-Within, exec_stencil-Within, exec_lighting-Within,
  exec_names-Within, exec_evaluator-Within, exec_uniform-Within, exec_feedback-Within,
  exec_framebuffer-Within, exec_sampler-Within, exec_packed-Within, exec_pipeline-Within,
  exec_texture-Within, exec_image-Within, exec_storage-Within, exec_attrib-Within,
  exec_named-Within, exec_barrier-Within, exec_raster-Within, exec_matrix-Within, exec_scale-Within,
  exec_coordinate-Within, exec_secondary-Within, exec_values-Within, exec_sub_image-Within,
  exec_texels-Within,
)

exec_gl-Within :
    (uploaded : Option (List ℕ)) (cmd : ℕ) (ws : List ℕ) → Within ws (exec_gl uploaded (cmd ∷ ws))
unfolding exec_gl
exec_gl-Within uploaded cmd ws = search groups depth 80

Within-cases :
    {A : Type 0} {ws : List ℕ} {d : Decoded A}
    → Within ws d
    → ((a : A) × (rest : List ℕ) × (d ≡ call a rest) × (length rest ≤ length ws))
      ⊎ (d ≡ off_stream)
      ⊎ (d ≡ other)
Within-cases (ran a rest h) = inl (a, rest, refl, h)
Within-cases stopped = inr (inl refl)
Within-cases passed = inr (inr refl)

-- A round that goes on has no more words left than stand behind the command.
data Shorter (ws : List ℕ) : Step → Type 0 where
  goes_on : (s : Server) (rest : List ℕ) → length rest ≤ length ws → Shorter ws (next s rest)
  faults : Shorter ws fault
  leaves : Shorter ws unmodelled

Shorter-cases :
    {ws : List ℕ} {t : Step}
    → Shorter ws t
    → ((s : Server) × (rest : List ℕ) × (t ≡ next s rest) × (length rest ≤ length ws))
      ⊎ (t ≡ fault)
      ⊎ (t ≡ unmodelled)
Shorter-cases (goes_on s rest h) = inl (s, rest, refl, h)
Shorter-cases faults = inr (inl refl)
Shorter-cases leaves = inr (inr refl)

module _ (driver : List Effect → ℕ) where
  exec-Shorter :
      (total : ℕ) (s : Server) (cmd : ℕ) (ws : List ℕ) → Shorter ws (exec driver total s cmd ws)
  unfolding exec
  exec-Shorter total s cmd ws = elim (Within-cases (exec_internal-Within total s cmd ws)) [
    | inl (t, rest, e, h) ↦ rw (exec, e) (goes_on t rest h)
    | inr (inl e) ↦ rw (exec, e) faults
    | inr (inr e) ↦
        rw (exec, e)
          (elim (Within-cases (exec_gl-Within s.uploaded cmd ws)) [
            | inl (a, rest, g, h) ↦ rw g (goes_on (gl_call driver s a) rest h)
            | inr (inl g) ↦ rw g faults
            | inr (inr g) ↦ rw g (elim (Bool-cases (no_case cmd)) [
              | inl t ↦ rw t (goes_on s ws (omega arith))
              | inr t ↦ rw t leaves
            ])
          ])
  ]

  run-same :
      (fuel more total : ℕ) (s : Server) (ws : List ℕ)
      → length ws < fuel
      → length ws < more
      → run driver fuel total s ws ≡ run driver more total s ws
  unfolding run
  run-same zero more total s ws h q = absurd (omega arith)
  run-same (suc fuel) zero total s ws h q = absurd (omega arith)
  run-same (suc fuel) (suc more) total s [] h q = refl
  run-same (suc fuel) (suc more) total s (cmd ∷ ws) h q = elim (Bool-cases (cmd == Cmd.invalid)) [
    | inl z ↦ rw (run, z) refl
    | inr z ↦
        rw (run, z)
          (elim (Shorter-cases (exec-Shorter total s cmd ws)) [
            | inl (t, rest, e, l) ↦
                rw e (run-same fuel more total t rest (omega (arith, l)) (omega (arith, l)))
            | inr (inl e) ↦ rw e refl
            | inr (inr e) ↦ rw e refl
          ])
  ]

  run-ne :
      (fuel total : ℕ) (s : Server) (ws : List ℕ)
      → length ws < fuel
      → run driver fuel total s ws ≢ out_of_fuel
  unfolding run
  run-ne zero total s ws h = absurd (omega arith)
  run-ne (suc fuel) total s [] h = λ q. absurd (ground (arith, q))
  run-ne (suc fuel) total s (cmd ∷ ws) h = elim (Bool-cases (cmd == Cmd.invalid)) [
    | inl z ↦ rw (run, z) (λ q. absurd (ground (arith, q)))
    | inr z ↦
        rw (run, z)
          (elim (Shorter-cases (exec-Shorter total s cmd ws)) [
            | inl (t, rest, e, l) ↦ rw e (run-ne fuel total t rest (omega (arith, l)))
            | inr (inl e) ↦ rw e (λ q. absurd (ground (arith, q)))
            | inr (inr e) ↦ rw e (λ q. absurd (ground (arith, q)))
          ])
  ]

  -- Whatever words are on the stream: with more fuel than words the model does not run out of fuel,
  -- and the outcome, which may be a fault or a command that is not modelled, does not depend on it.
  run-ends :
      (fuel total : ℕ) (s : Server) (ws : List ℕ)
      → length ws < fuel
      → (run driver fuel total s ws ≢ out_of_fuel)
        × ((more : ℕ) → length ws < more → run driver fuel total s ws ≡ run driver more total s ws)
  run-ends fuel total s ws h =
      (run-ne fuel total s ws h, λ more q. run-same fuel more total s ws h q)
