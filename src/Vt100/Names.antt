-- ===== src/Vt100/Names.antt =====
-- The tables of lib/osal/vt100_out.h that give colours and attributes their names. A colour's id is
-- the number of its Color enumerator, counted from ColorDefault.
use fgen.Prelude.{ℕ, List, [], ◌∷◌}
use fgen.CString.{Bytes, codes}

-- `RGB_COLOR_NAMES`, in the order in which it is searched.
unfoldable pub rgb_names : List (Bytes × ℕ)
rgb_names =
    (codes "default", 0)
    ∷ (codes "black", 1)
    ∷ (codes "maroon", 2)
    ∷ (codes "green", 3)
    ∷ (codes "olive", 4)
    ∷ (codes "navy", 5)
    ∷ (codes "purple", 6)
    ∷ (codes "teal", 7)
    ∷ (codes "silver", 8)
    ∷ (codes "gray", 9)
    ∷ (codes "red", 10)
    ∷ (codes "lime", 11)
    ∷ (codes "yellow", 12)
    ∷ (codes "blue", 13)
    ∷ (codes "fuchsia", 14)
    ∷ (codes "aqua", 15)
    ∷ (codes "white", 16)
    ∷ (codes "aliceblue", 257)
    ∷ (codes "antiquewhite", 258)
    ∷ (codes "aquamarine", 259)
    ∷ (codes "azure", 260)
    ∷ (codes "beige", 261)
    ∷ (codes "bisque", 262)
    ∷ (codes "blanchedalmond", 263)
    ∷ (codes "blueviolet", 264)
    ∷ (codes "brown", 265)
    ∷ (codes "burlywood", 266)
    ∷ (codes "cadetblue", 267)
    ∷ (codes "chartreuse", 268)
    ∷ (codes "chocolate", 269)
    ∷ (codes "coral", 270)
    ∷ (codes "cornflowerblue", 271)
    ∷ (codes "cornsilk", 272)
    ∷ (codes "crimson", 273)
    ∷ (codes "darkblue", 274)
    ∷ (codes "darkcyan", 275)
    ∷ (codes "darkgoldenrod", 276)
    ∷ (codes "darkgray", 277)
    ∷ (codes "darkgreen", 278)
    ∷ (codes "darkkhaki", 279)
    ∷ (codes "darkmagenta", 280)
    ∷ (codes "darkolivegreen", 281)
    ∷ (codes "darkorange", 282)
    ∷ (codes "darkorchid", 283)
    ∷ (codes "darkred", 284)
    ∷ (codes "darksalmon", 285)
    ∷ (codes "darkseagreen", 286)
    ∷ (codes "darkslateblue", 287)
    ∷ (codes "darkslategray", 288)
    ∷ (codes "darkturquoise", 289)
    ∷ (codes "darkviolet", 290)
    ∷ (codes "deeppink", 291)
    ∷ (codes "deepskyblue", 292)
    ∷ (codes "dimgray", 293)
    ∷ (codes "dodgerblue", 294)
    ∷ (codes "firebrick", 295)
    ∷ (codes "floralwhite", 296)
    ∷ (codes "forestgreen", 297)
    ∷ (codes "gainsboro", 298)
    ∷ (codes "ghostwhite", 299)
    ∷ (codes "gold", 300)
    ∷ (codes "goldenrod", 301)
    ∷ (codes "greenyellow", 302)
    ∷ (codes "honeydew", 303)
    ∷ (codes "hotpink", 304)
    ∷ (codes "indianred", 305)
    ∷ (codes "indigo", 306)
    ∷ (codes "ivory", 307)
    ∷ (codes "khaki", 308)
    ∷ (codes "lavender", 309)
    ∷ (codes "lavenderblush", 310)
    ∷ (codes "lawngreen", 311)
    ∷ (codes "lemonchiffon", 312)
    ∷ (codes "lightblue", 313)
    ∷ (codes "lightcoral", 314)
    ∷ (codes "lightcyan", 315)
    ∷ (codes "lightgoldenrodyellow", 316)
    ∷ (codes "lightgray", 317)
    ∷ (codes "lightgreen", 318)
    ∷ (codes "lightpink", 319)
    ∷ (codes "lightsalmon", 320)
    ∷ (codes "lightseagreen", 321)
    ∷ (codes "lightskyblue", 322)
    ∷ (codes "lightslategray", 323)
    ∷ (codes "lightsteelblue", 324)
    ∷ (codes "lightyellow", 325)
    ∷ (codes "limegreen", 326)
    ∷ (codes "linen", 327)
    ∷ (codes "mediumaquamarine", 328)
    ∷ (codes "mediumblue", 329)
    ∷ (codes "mediumorchid", 330)
    ∷ (codes "mediumpurple", 331)
    ∷ (codes "mediumseagreen", 332)
    ∷ (codes "mediumslateblue", 333)
    ∷ (codes "mediumspringgreen", 334)
    ∷ (codes "mediumturquoise", 335)
    ∷ (codes "mediumvioletred", 336)
    ∷ (codes "midnightblue", 337)
    ∷ (codes "mintcream", 338)
    ∷ (codes "mistyrose", 339)
    ∷ (codes "moccasin", 340)
    ∷ (codes "navajowhite", 341)
    ∷ (codes "oldlace", 342)
    ∷ (codes "olivedrab", 343)
    ∷ (codes "orange", 344)
    ∷ (codes "orangered", 345)
    ∷ (codes "orchid", 346)
    ∷ (codes "palegoldenrod", 347)
    ∷ (codes "palegreen", 348)
    ∷ (codes "paleturquoise", 349)
    ∷ (codes "palevioletred", 350)
    ∷ (codes "papayawhip", 351)
    ∷ (codes "peachpuff", 352)
    ∷ (codes "peru", 353)
    ∷ (codes "pink", 354)
    ∷ (codes "plum", 355)
    ∷ (codes "powderblue", 356)
    ∷ (codes "rebeccapurple", 357)
    ∷ (codes "rosybrown", 358)
    ∷ (codes "royalblue", 359)
    ∷ (codes "saddlebrown", 360)
    ∷ (codes "salmon", 361)
    ∷ (codes "sandybrown", 362)
    ∷ (codes "seagreen", 363)
    ∷ (codes "seashell", 364)
    ∷ (codes "sienna", 365)
    ∷ (codes "skyblue", 366)
    ∷ (codes "slateblue", 367)
    ∷ (codes "slategray", 368)
    ∷ (codes "snow", 369)
    ∷ (codes "springgreen", 370)
    ∷ (codes "steelblue", 371)
    ∷ (codes "tan", 372)
    ∷ (codes "thistle", 373)
    ∷ (codes "tomato", 374)
    ∷ (codes "turquoise", 375)
    ∷ (codes "violet", 376)
    ∷ (codes "wheat", 377)
    ∷ (codes "whitesmoke", 378)
    ∷ (codes "yellowgreen", 379)
    ∷ (codes "grey", 9)
    ∷ (codes "dimgrey", 293)
    ∷ (codes "darkgrey", 277)
    ∷ (codes "darkslategrey", 288)
    ∷ (codes "lightgrey", 317)
    ∷ (codes "lightslategrey", 323)
    ∷ (codes "slategrey", 368)
    ∷ (codes "magenta", 14)
    ∷ (codes "cyan", 15)
    ∷ []

-- `VT_ATTRS`.
unfoldable pub vt_attrs : List (Bytes × ℕ)
vt_attrs =
    (codes "off", 0)
    ∷ (codes "bold", 1)
    ∷ (codes "faint", 2)
    ∷ (codes "italic", 3)
    ∷ (codes "underscore", 4)
    ∷ (codes "blink", 5)
    ∷ (codes "fastblink", 6)
    ∷ (codes "reverse", 7)
    ∷ (codes "concealed", 8)
    ∷ (codes "crossout", 9)
    ∷ (codes "deffont", 10)
    ∷ (codes "default", 98)
    ∷ []
