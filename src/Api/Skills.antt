-- ===== src/Api/Skills.antt =====
-- internal/api/router.go: GET /v1/skills and GET /v1/skills/{name}.
use hermes_manager.Prelude.{
  String, Option, none, some, List, [], ◌∷◌, errorf, plain, quoted, wrap, Result, ok, err,
}
use hermes_manager.Storage.{Skill}
use hermes_manager.World.{World}
use hermes_manager.Api.Response.{Response, write_json, write_error, skill, skills}
use hermes_manager.Api.Server.{Server}

abbrev pub respond_skills : Result (List Skill) → Response
respond_skills (ok rows) = write_json 200 (skills rows)
respond_skills (err e) = write_error 500 (wrap "failed to list skills: " e)

abbrev pub respond_skill : String → Result (Option Skill) → Response
respond_skill name (ok (some sk)) = write_json 200 (skill sk)
respond_skill name (ok none) =
    write_error 404 (errorf (plain "skill " ∷ quoted name ∷ plain " not found" ∷ []))
respond_skill name (err e) = write_error 500 (wrap "failed to get skill: " e)

module _ (s : Server) where
  unfoldable pub handle_list_skills : World → Response × World
  handle_list_skills w = let (listed, w') = s.store.list_skills w in (respond_skills listed, w')

  unfoldable pub handle_get_skill : String → World → Response × World
  handle_get_skill name w =
      let (found, w') = s.store.get_skill name w in (respond_skill name found, w')
